-- ===== src/Web/Api/Laws.antt =====
-- apps/web/src/api: which requests carry which credentials.
use Prim.Native.String.{◌++◌ as text_append}
use remodelator.Base.{
  ◌≡◌, refl, ◌∙◌, inl, inr, String, Bool, true, false, not, ◌&&◌, Option, none, some, List, [], ◌∷◌,
  ◌++◌, Bool-cases, if◌then◌else◌,
}
use remodelator.Base.Json.{Json}
use remodelator.Base.Text.{is_empty, trim}
use remodelator.Web.Api.Paths.{no_key-estimates, no_key-proposals, needs_key-prune}
use remodelator.Web.Api.Calls.{
  Activity, Admin, Billing, Catalog, Estimates, Llm, Profile, Proposals, Templates, Call,
  demo_reset, prune_audit, create_proposal_share_link, generate_proposal_pdf, get_admin_summary,
  get_admin_users, get_admin_activity, get_admin_billing_ledger, list_estimates, get_estimate,
  create_estimate, update_estimate, delete_estimate, update_line_item, delete_line_item,
  render_proposal, render_public_proposal, restore_backup, simulate_subscription,
  simulate_estimate_charge, simulate_event, simulate_refund, upsert_catalog_item, import_catalog,
  get_llm_status, get_llm_suggestion, apply_llm_suggestion, get_profile, update_profile,
  list_templates, save_template, apply_template,
}
use remodelator.Web.Api.Send.{
  Encoding, joined, estimate_path, query, activity_api, admin_api, billing_api, catalog_api,
  estimates_api, llm_api, profile_api, proposals_api, templates_api, perform,
}
use remodelator.Web.App.{App, Runtime}
use remodelator.Web.Client.{
  request_headers, requires_admin_key_header, normalized_path, upper_is, token_header, key_header,
  get, post, put, del,
}
use remodelator.Web.Client.Laws.{header, SendsOne, request-SendsOne, admin_header}

-- the two calls that change the whole database
abbrev pub is_destructive : Call → Bool
is_destructive (Call.admin demo_reset) = true
is_destructive (Call.admin (prune_audit retention_days dry_run)) = true
is_destructive _ = false

-- a text that is set
abbrev pub set_text : String → Option String
set_text s = if is_empty s then none else some s

abbrev pub set_token : Option String → Option String
set_token none = none
set_token (some token) = set_text token

-- the session's token, and the admin key just when `with_key` says so
abbrev pub Carries : App → Bool → List (String × String) → Type 0
Carries app with_key headers =
    (header "x-session-token" headers ≡ set_token app.auth.token)
    × (header "x-admin-key" headers
        ≡ (if with_key then set_text (trim app.admin_api_key) else none))

session_header-key_header :
    (key : String) (required : Bool) → header "x-session-token" (key_header key required) ≡ none
session_header-key_header key required = elim (Bool-cases (not (is_empty key) && required)) [
  | inl e ↦ rw e refl
  | inr e ↦ rw e refl
]

session_header-token_header :
    (token : Option String) (rest : List (String × String))
    → header "x-session-token" rest ≡ none
    → header "x-session-token" (token_header token ++ rest) ≡ set_token token
session_header-token_header none rest e = e
session_header-token_header (some token) rest e = elim (Bool-cases (is_empty token)) [
  | inl unset ↦ rw unset e
  | inr set ↦ rw set refl
]

session_header :
    (app : App) (path verb : String)
    → header "x-session-token" (request_headers app path verb) ≡ set_token app.auth.token
unfolding request_headers
session_header app path verb =
    session_header-token_header app.auth.token _
      (session_header-key_header (trim app.admin_api_key) (requires_admin_key_header path verb))

key_test :
    (key : String) (required : Bool)
    → (if not (is_empty key) && required then some key else none)
      ≡ (if required then set_text key else none)
key_test String.[] true = refl
key_test String.[] false = refl
key_test (String.◌∷◌ c s) true = refl
key_test (String.◌∷◌ c s) false = refl

request_headers-Carries :
    (app : App) (path verb : String) (with_key : Bool)
    → requires_admin_key_header path verb ≡ with_key
    → Carries app with_key (request_headers app path verb)
request_headers-Carries app path verb with_key e = (
  session_header app path verb,
  admin_header app path verb
      ∙ key_test (trim app.admin_api_key) (requires_admin_key_header path verb)
      ∙ rw e refl,
)

module _ (js : Runtime) (app : App) where
  get-Carries : (path : String) → SendsOne app (get js path app).1 (Carries app false)
  unfolding get requires_admin_key_header upper_is
  get-Carries path =
      request-SendsOne js path "GET" none app _ (request_headers-Carries app path "GET" false refl)

  put-Carries :
      (path : String) (body : Option Json)
      → SendsOne app (put js path body app).1 (Carries app false)
  unfolding put requires_admin_key_header upper_is
  put-Carries path body =
      request-SendsOne js path "PUT" body app _ (request_headers-Carries app path "PUT" false refl)

  del-Carries : (path : String) → SendsOne app (del js path app).1 (Carries app false)
  unfolding del requires_admin_key_header upper_is
  del-Carries path =
      request-SendsOne js path "DELETE" none app _
        (request_headers-Carries app path "DELETE" false refl)

  post-Carries :
      (path : String) (body : Option Json) (with_key : Bool)
      → requires_admin_key_header path "POST" ≡ with_key
      → SendsOne app (post js path body app).1 (Carries app with_key)
  unfolding post
  post-Carries path body with_key e =
      request-SendsOne js path "POST" body app _
        (request_headers-Carries app path "POST" with_key e)

-- the two calls of admin.ts that post
prune-Carries :
    (js : Runtime) (web : Encoding) (app : App) (entries : List (String × String))
    → SendsOne app
        (post js (text_append "/admin/audit-prune" (query js web entries)) none app).1
        (Carries app true)
unfolding requires_admin_key_header upper_is normalized_path
prune-Carries js web app entries = elim (Bool-cases (is_empty (web.search_params entries))) [
  | inl e ↦ rw e (post-Carries js app (text_append "/admin/audit-prune" "") none true refl)
  | inr e ↦ rw e (post-Carries js app _ none true (needs_key-prune (web.search_params entries)))
]

module _ (js : Runtime) (web : Encoding) (app : App) where
  admin_api-Carries :
      (c : Admin)
      → SendsOne app (admin_api js web c app).1 (Carries app (is_destructive (Call.admin c)))
  unfolding admin_api requires_admin_key_header upper_is normalized_path
  admin_api-Carries get_admin_summary = get-Carries js app _
  admin_api-Carries (get_admin_users limit search') = get-Carries js app _
  admin_api-Carries (get_admin_activity limit user_id action entity_type) = get-Carries js app _
  admin_api-Carries (get_admin_billing_ledger limit user_id event_type) = get-Carries js app _
  admin_api-Carries (prune_audit retention_days dry_run) = prune-Carries js web app _
  admin_api-Carries demo_reset = post-Carries js app _ none true refl

  estimate_post :
      (id : String) (rest : List String) (body : Option Json)
      → SendsOne app (post js (estimate_path id rest) body app).1 (Carries app false)
  estimate_post id rest body =
      post-Carries js app _ body false (no_key-estimates (joined (id ∷ rest)))

  estimates_api-Carries :
      (c : Estimates) → SendsOne app (estimates_api js web c app).1 (Carries app false)
  unfolding estimates_api requires_admin_key_header upper_is normalized_path
  estimates_api-Carries list_estimates = get-Carries js app _
  estimates_api-Carries (get_estimate id) = get-Carries js app _
  estimates_api-Carries (create_estimate data') = post-Carries js app _ _ false refl
  estimates_api-Carries (update_estimate id data') = put-Carries js app _ _
  estimates_api-Carries (delete_estimate id) = del-Carries js app _
  estimates_api-Carries (update_line_item id line data') = put-Carries js app _ _
  estimates_api-Carries (delete_line_item id line) = del-Carries js app _
  estimates_api-Carries _ = search (estimate_post)

  proposals_api-Carries :
      (c : Proposals) → SendsOne app (proposals_api js web c app).1 (Carries app false)
  unfolding proposals_api
  proposals_api-Carries (render_proposal id) = get-Carries js app _
  proposals_api-Carries (render_public_proposal id) = get-Carries js app _
  proposals_api-Carries (create_proposal_share_link id) =
      post-Carries js app _ _ false (no_key-proposals (joined (id ∷ "/share" ∷ [])))
  proposals_api-Carries (generate_proposal_pdf id path) =
      post-Carries js app _ _ false (no_key-proposals (joined (id ∷ "/pdf" ∷ [])))

  activity_api-Carries :
      (c : Activity) → SendsOne app (activity_api js web c app).1 (Carries app false)
  unfolding activity_api requires_admin_key_header upper_is normalized_path
  activity_api-Carries (restore_backup data') = post-Carries js app _ _ false refl
  activity_api-Carries _ = get-Carries js app _

  billing_api-Carries :
      (c : Billing) → SendsOne app (billing_api js web c app).1 (Carries app false)
  unfolding billing_api requires_admin_key_header upper_is normalized_path
  billing_api-Carries (simulate_subscription data') = post-Carries js app _ _ false refl
  billing_api-Carries (simulate_estimate_charge data') = post-Carries js app _ _ false refl
  billing_api-Carries (simulate_event data') = post-Carries js app _ _ false refl
  billing_api-Carries (simulate_refund data') = post-Carries js app _ _ false refl
  billing_api-Carries _ = get-Carries js app _

  catalog_api-Carries :
      (c : Catalog) → SendsOne app (catalog_api js web c app).1 (Carries app false)
  unfolding catalog_api requires_admin_key_header upper_is normalized_path
  catalog_api-Carries (upsert_catalog_item data') = post-Carries js app _ _ false refl
  catalog_api-Carries (import_catalog data') = post-Carries js app _ _ false refl
  catalog_api-Carries _ = get-Carries js app _

  llm_api-Carries : (c : Llm) → SendsOne app (llm_api js web c app).1 (Carries app false)
  unfolding llm_api requires_admin_key_header upper_is normalized_path
  llm_api-Carries get_llm_status = get-Carries js app _
  llm_api-Carries (get_llm_suggestion data') = post-Carries js app _ _ false refl
  llm_api-Carries (apply_llm_suggestion data') = post-Carries js app _ _ false refl

  profile_api-Carries :
      (c : Profile) → SendsOne app (profile_api js web c app).1 (Carries app false)
  unfolding profile_api
  profile_api-Carries get_profile = get-Carries js app _
  profile_api-Carries (update_profile data') = put-Carries js app _ _

  templates_api-Carries :
      (c : Templates) → SendsOne app (templates_api js web c app).1 (Carries app false)
  unfolding templates_api requires_admin_key_header upper_is normalized_path
  templates_api-Carries list_templates = get-Carries js app _
  templates_api-Carries (save_template data') = post-Carries js app _ _ false refl
  templates_api-Carries (apply_template data') = post-Carries js app _ _ false refl

  -- Every call of a function of api, but for those of sign-in and the download of a proposal, sends one
  -- request. It carries the session's token if there is one that is not empty, and it carries the trimmed
  -- admin key if that is not empty and the call is `demoReset` or `pruneAudit`; no other call carries an
  -- admin key, whatever its parameters are.
  pub perform-Carries :
      (c : Call) → SendsOne app (perform js web c app).1 (Carries app (is_destructive c))
  unfolding perform
  perform-Carries (Call.activity c) = activity_api-Carries c
  perform-Carries (Call.admin c) = admin_api-Carries c
  perform-Carries (Call.billing c) = billing_api-Carries c
  perform-Carries (Call.catalog c) = catalog_api-Carries c
  perform-Carries (Call.estimates c) = estimates_api-Carries c
  perform-Carries (Call.llm c) = llm_api-Carries c
  perform-Carries (Call.profile c) = profile_api-Carries c
  perform-Carries (Call.proposals c) = proposals_api-Carries c
  perform-Carries (Call.templates c) = templates_api-Carries c
