-- ===== src/Web/Api/Send.antt =====
-- apps/web/src/api: what the functions that call the backend do.
use Prim.Native.String.{◌++◌ as text_append}
use remodelator.Base.{
  String, Bool, true, false, Option, none, some, List, [], ◌∷◌, ◌++◌, if◌then◌else◌,
}
use remodelator.Base.Json.{Json, Fields}
use remodelator.Base.Text.{is_empty, decimal}
use remodelator.Web.Api.Calls.{
  Activity, Admin, Billing, Catalog, Estimates, Llm, Profile, Proposals, Templates, Call,
  get_activity_summary, get_audit_trail, export_backup, restore_backup, get_admin_summary,
  demo_reset, get_admin_users, get_admin_activity, get_admin_billing_ledger, prune_audit,
  get_billing_policy, get_billing_provider_status, get_subscription_state, get_billing_ledger,
  simulate_subscription, simulate_estimate_charge, simulate_event, simulate_refund,
  get_catalog_tree, search_catalog, upsert_catalog_item, import_catalog, list_estimates,
  get_estimate, create_estimate, update_estimate, delete_estimate, set_estimate_status,
  unlock_estimate, duplicate_estimate, version_estimate, recalc_estimate, quickstart_estimate,
  export_estimate, add_line_item, update_line_item, delete_line_item, reorder_line_item,
  group_line_items, get_llm_status, get_llm_suggestion, apply_llm_suggestion, get_profile,
  update_profile, render_proposal, create_proposal_share_link, render_public_proposal,
  generate_proposal_pdf, list_templates, save_template, apply_template,
}
use remodelator.Web.App.{App, Runtime, Reply}
use remodelator.Web.Auth.{texts}
use remodelator.Web.Client.{Result, get, post, put, del, is_ok, token_header}

-- what the browser defines: the text of `URLSearchParams` with these entries, and `encodeURIComponent`
pub record Encoding : Type 0 where
  pub search_params : List (String × String) → String
  pub encode_uri_component : String → String

-- what a download comes to: a file under a name, or an error
pub data Download : Type 0 where
  saved : String → String → Download
  failed : String → Download
  unanswered : Download

-- the text of a template literal
abbrev pub joined : List String → String
joined [] = ""
joined (s ∷ rest) = text_append s (joined rest)

-- `/estimates/${id}` and what follows
abbrev pub estimate_path : String → List String → String
estimate_path id rest = joined ("/estimates/" ∷ id ∷ rest)

-- `data || {}`
abbrev pub or_object : Option Json → Json
or_object none = Json.object Fields.end
or_object (some data') = data'

-- `outputPath ? { output_path: outputPath } : {}`
abbrev pub output_path : Option String → Json
output_path none = Json.object Fields.end
output_path (some path) =
    if is_empty path
    then Json.object Fields.end
    else Json.object (texts (("output_path", path) ∷ []))

-- an entry of the query that is set if the parameter is truthy: a text, or a number
abbrev pub text_entry : String → Option String → List (String × String)
text_entry name none = []
text_entry name (some v) = if is_empty v then [] else (name, v) ∷ []

abbrev pub flag_entry : String → Option Bool → List (String × String)
flag_entry name none = []
flag_entry name (some true) = (name, "true") ∷ []
flag_entry name (some false) = (name, "false") ∷ []

module _ (js : Runtime) (web : Encoding) where
  abbrev pub number_entry : String → Option String → List (String × String)
  number_entry name none = []
  number_entry name (some v) = if js.is_zero v then [] else (name, v) ∷ []

  -- `${q ? `?${q}` : ''}`
  abbrev pub query : List (String × String) → String
  query entries = let q = web.search_params entries in if is_empty q then "" else text_append "?" q

  unfoldable pub activity_api : Activity → App → Result × App
  unfolding get post
  activity_api get_activity_summary = get js "/activity"
  activity_api get_audit_trail = get js "/audit"
  activity_api export_backup = get js "/backup/export"
  activity_api (restore_backup data') = post js "/backup/restore" (some data')

  unfoldable pub admin_api : Admin → App → Result × App
  unfolding get post
  admin_api get_admin_summary = get js "/admin/summary"
  admin_api (get_admin_users limit search') = get js (
      text_append "/admin/users"
        (query (number_entry "limit" limit ++ text_entry "search" search')))
  admin_api (get_admin_activity limit user_id action entity_type) = get js (
      text_append "/admin/activity" (
        query (
          number_entry "limit" limit
          ++ text_entry "user_id" user_id
          ++ text_entry "action" action
          ++ text_entry "entity_type" entity_type)))
  admin_api (get_admin_billing_ledger limit user_id event_type) = get js (
      text_append "/admin/billing-ledger" (
        query (
          number_entry "limit" limit
          ++ text_entry "user_id" user_id
          ++ text_entry "event_type" event_type)))
  admin_api (prune_audit retention_days dry_run) =
      post js
        (text_append "/admin/audit-prune"
          (query (number_entry "retention_days" retention_days ++ flag_entry "dry_run" dry_run)))
        none
  admin_api demo_reset = post js "/admin/demo-reset" none

  unfoldable pub billing_api : Billing → App → Result × App
  unfolding get post
  billing_api get_billing_policy = get js "/billing/policy"
  billing_api get_billing_provider_status = get js "/billing/provider-status"
  billing_api get_subscription_state = get js "/billing/subscription-state"
  billing_api get_billing_ledger = get js "/billing/ledger"
  billing_api (simulate_subscription data') =
      post js "/billing/simulate-subscription" (some (or_object data'))
  billing_api (simulate_estimate_charge data') =
      post js "/billing/simulate-estimate-charge" (some (or_object data'))
  billing_api (simulate_event data') = post js "/billing/simulate-event" (some data')
  billing_api (simulate_refund data') = post js "/billing/simulate-refund" (some data')

  unfoldable pub catalog_api : Catalog → App → Result × App
  unfolding get post
  catalog_api get_catalog_tree = get js "/catalog/tree"
  catalog_api (search_catalog text) =
      get js (text_append "/catalog/search?query=" (web.encode_uri_component text))
  catalog_api (upsert_catalog_item data') = post js "/catalog/upsert" (some data')
  catalog_api (import_catalog data') = post js "/catalog/import" (some data')

  unfoldable pub estimates_api : Estimates → App → Result × App
  unfolding get post put del
  estimates_api list_estimates = get js "/estimates"
  estimates_api (get_estimate id) = get js (estimate_path id [])
  estimates_api (create_estimate data') = post js "/estimates" (some data')
  estimates_api (update_estimate id data') = put js (estimate_path id []) (some data')
  estimates_api (delete_estimate id) = del js (estimate_path id [])
  estimates_api (set_estimate_status id status) =
      post js (estimate_path id ("/status" ∷ []))
        (some (Json.object (texts (("status", status) ∷ []))))
  estimates_api (unlock_estimate id) = post js (estimate_path id ("/unlock" ∷ [])) none
  estimates_api (duplicate_estimate id) = post js (estimate_path id ("/duplicate" ∷ [])) none
  estimates_api (version_estimate id) = post js (estimate_path id ("/version" ∷ [])) none
  estimates_api (recalc_estimate id) = post js (estimate_path id ("/recalc" ∷ [])) none
  estimates_api (quickstart_estimate id data') =
      post js (estimate_path id ("/quickstart" ∷ [])) (some data')
  estimates_api (export_estimate id path) =
      post js (estimate_path id ("/export" ∷ [])) (some (output_path path))
  estimates_api (add_line_item id data') =
      post js (estimate_path id ("/line-items" ∷ [])) (some data')
  estimates_api (update_line_item id line data') =
      put js (estimate_path id ("/line-items/" ∷ line ∷ [])) (some data')
  estimates_api (delete_line_item id line) = del js (estimate_path id ("/line-items/" ∷ line ∷ []))
  estimates_api (reorder_line_item id line new_index) =
      post js (estimate_path id ("/line-items/" ∷ line ∷ "/reorder" ∷ []))
        (some (Json.object (Fields.field "new_index" (Json.number (decimal new_index)) Fields.end)))
  estimates_api (group_line_items id data') =
      post js (estimate_path id ("/line-items/group" ∷ [])) (some data')

  unfoldable pub llm_api : Llm → App → Result × App
  unfolding get post
  llm_api get_llm_status = get js "/pricing/llm/status"
  llm_api (get_llm_suggestion data') = post js "/pricing/llm/live" (some data')
  llm_api (apply_llm_suggestion data') = post js "/pricing/llm/apply" (some data')

  unfoldable pub profile_api : Profile → App → Result × App
  unfolding get put
  profile_api get_profile = get js "/profile"
  profile_api (update_profile data') = put js "/profile" (some data')

  unfoldable pub proposals_api : Proposals → App → Result × App
  unfolding get post
  proposals_api (render_proposal id) = get js (joined ("/proposals/" ∷ id ∷ "/render" ∷ []))
  proposals_api (create_proposal_share_link id) =
      post js (joined ("/proposals/" ∷ id ∷ "/share" ∷ [])) none
  proposals_api (render_public_proposal token) =
      get js (joined ("/proposals/public/" ∷ token ∷ "/render" ∷ []))
  proposals_api (generate_proposal_pdf id path) =
      post js (joined ("/proposals/" ∷ id ∷ "/pdf" ∷ [])) (some (output_path path))

  unfoldable pub templates_api : Templates → App → Result × App
  unfolding get post
  templates_api list_templates = get js "/templates"
  templates_api (save_template data') = post js "/templates/save" (some data')
  templates_api (apply_template data') = post js "/templates/apply" (some data')

  -- the call that a page makes
  unfoldable pub perform : Call → App → Result × App
  unfolding activity_api admin_api billing_api catalog_api estimates_api llm_api profile_api
      proposals_api templates_api
  perform (Call.activity c) = activity_api c
  perform (Call.admin c) = admin_api c
  perform (Call.billing c) = billing_api c
  perform (Call.catalog c) = catalog_api c
  perform (Call.estimates c) = estimates_api c
  perform (Call.llm c) = llm_api c
  perform (Call.profile c) = profile_api c
  perform (Call.proposals c) = proposals_api c
  perform (Call.templates c) = templates_api c

  abbrev pdf_reply : String → List Reply → App → Download × App
  pdf_reply id [] app = (unanswered, app)
  pdf_reply id (Reply.rejected message ∷ rest) app = (failed message, record app { replies = rest })
  pdf_reply id (Reply.answered status status_text body ∷ rest) app = (
    if is_ok js status
        then saved (joined ("proposal_" ∷ id ∷ ".pdf" ∷ [])) body
        else failed "Failed to download proposal PDF",
    record app { replies = rest },
  )

  -- Its request is made without `request` of client.ts.
  unfoldable pub download_proposal_pdf : String → App → Download × App
  download_proposal_pdf id app = pdf_reply id app.replies (record app {
    sent =
        app.sent
        ++ record {
          url = text_append js.api_base (joined ("/proposals/" ∷ id ∷ "/pdf/download" ∷ []));
          verb = "GET";
          body = none;
          headers = token_header app.auth.token;
        }
          ∷ [];
  })
