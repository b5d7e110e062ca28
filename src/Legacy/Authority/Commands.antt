-- ===== src/Legacy/Authority/Commands.antt =====
-- archive/apps/web/src_legacy: the requests of the commands that need a session, and whose token they
-- carry.
use remodelator.Base.{◌≡◌, ◌∙◌, ◌⊎◌, inl, inr, ◌≤◌, true, some, List, [], ◌∷◌, All, length}
use remodelator.Legacy.Api.{request_headers}
use remodelator.Legacy.Authority.{IsAuthorised, is_public}
use remodelator.Legacy.Authority.Handlers.{
  on_create_estimate-Keeps, on_add_line_item-Keeps, on_update_estimate_details-Keeps,
  on_apply_catalog_quickstart-Keeps, on_update_selected_line-Keeps, on_remove_selected_line-Keeps,
  on_reorder_selected_line-Keeps, on_group_line_items-Keeps, on_estimate_action-Keeps,
  on_save_template-Keeps, on_apply_template-Keeps, on_render_proposal-Keeps,
  on_generate_proposal_pdf-Keeps, on_export_estimate_json-Keeps, on_simulate_estimate_charge-Keeps,
  on_simulate_subscription-Keeps, on_simulate_refund-Keeps, on_simulate_card_attach-Keeps,
  on_simulate_checkout_complete-Keeps, on_simulate_usage_charge-Keeps,
  on_simulate_invoice_paid-Keeps, on_simulate_invoice_failed-Keeps,
  on_simulate_cancel_subscription-Keeps, on_add_catalog_item-Keeps, on_catalog_upsert-Keeps,
  on_catalog_import-Keeps, on_suggest_llm-Keeps, on_apply_llm_suggestion-Keeps,
  on_load_profile-Keeps, on_save_profile-Keeps, on_refresh_activity-Keeps, on_export_snapshot-Keeps,
  on_restore_snapshot-Keeps,
}
use remodelator.Legacy.Commands.{guarded}
use remodelator.Legacy.Commands.Listing.{Guarded}
use remodelator.Legacy.Guards.{auth_headers}
use remodelator.Legacy.Keeps.{Keeps}
use remodelator.Legacy.Monad.{World, Request, Method, Headers}
use remodelator.Legacy.Types.{Session}

pub guarded-Keeps : (o : World) (g : Guarded) → Keeps (IsAuthorised o) (guarded o g)
unfolding guarded
guarded-Keeps o Guarded.create_estimate = on_create_estimate-Keeps o
guarded-Keeps o Guarded.add_line_item = on_add_line_item-Keeps o
guarded-Keeps o Guarded.update_estimate_details = on_update_estimate_details-Keeps o
guarded-Keeps o Guarded.apply_catalog_quickstart = on_apply_catalog_quickstart-Keeps o
guarded-Keeps o Guarded.update_selected_line = on_update_selected_line-Keeps o
guarded-Keeps o Guarded.remove_selected_line = on_remove_selected_line-Keeps o
guarded-Keeps o (Guarded.reorder_selected_line direction) =
    on_reorder_selected_line-Keeps o direction
guarded-Keeps o (Guarded.group_line_items scope) = on_group_line_items-Keeps o scope
guarded-Keeps o (Guarded.estimate_action kind) = on_estimate_action-Keeps o kind
guarded-Keeps o Guarded.save_template = on_save_template-Keeps o
guarded-Keeps o Guarded.apply_template = on_apply_template-Keeps o
guarded-Keeps o Guarded.render_proposal = on_render_proposal-Keeps o
guarded-Keeps o Guarded.generate_proposal_pdf = on_generate_proposal_pdf-Keeps o
guarded-Keeps o Guarded.export_estimate_json = on_export_estimate_json-Keeps o
guarded-Keeps o Guarded.simulate_estimate_charge = on_simulate_estimate_charge-Keeps o
guarded-Keeps o Guarded.simulate_subscription = on_simulate_subscription-Keeps o
guarded-Keeps o Guarded.simulate_refund = on_simulate_refund-Keeps o
guarded-Keeps o Guarded.simulate_card_attach = on_simulate_card_attach-Keeps o
guarded-Keeps o Guarded.simulate_checkout_complete = on_simulate_checkout_complete-Keeps o
guarded-Keeps o Guarded.simulate_usage_charge = on_simulate_usage_charge-Keeps o
guarded-Keeps o Guarded.simulate_invoice_paid = on_simulate_invoice_paid-Keeps o
guarded-Keeps o Guarded.simulate_invoice_failed = on_simulate_invoice_failed-Keeps o
guarded-Keeps o Guarded.simulate_cancel_subscription = on_simulate_cancel_subscription-Keeps o
guarded-Keeps o (Guarded.add_catalog_item item) = on_add_catalog_item-Keeps o item
guarded-Keeps o Guarded.catalog_upsert = on_catalog_upsert-Keeps o
guarded-Keeps o Guarded.catalog_import = on_catalog_import-Keeps o
guarded-Keeps o Guarded.suggest_llm = on_suggest_llm-Keeps o
guarded-Keeps o Guarded.apply_llm_suggestion = on_apply_llm_suggestion-Keeps o
guarded-Keeps o Guarded.load_profile = on_load_profile-Keeps o
guarded-Keeps o Guarded.save_profile = on_save_profile-Keeps o
guarded-Keeps o Guarded.refresh_activity = on_refresh_activity-Keeps o
guarded-Keeps o Guarded.export_snapshot = on_export_snapshot-Keeps o
guarded-Keeps o Guarded.restore_snapshot = on_restore_snapshot-Keeps o

-- the headers of a request made under a session
abbrev pub session_headers : Session → Headers
session_headers s = ("Content-Type", "application/json") ∷ ("x-session-token", s.session_token) ∷ []

-- a request with the token of the session, or a GET of something public without any credentials
abbrev pub HasToken : Session → Request → Type 0
HasToken s r =
    (r.headers ≡ session_headers s)
    ⊎ ((is_public r.path ≡ true)
        × (r.verb ≡ Method.get_method)
        × (r.headers ≡ ("Content-Type", "application/json") ∷ []))

request_headers-session :
    (o : World) (s : Session)
    → o.session ≡ some s
    → request_headers (auth_headers o) ≡ session_headers s
unfolding auth_headers
request_headers-session o s e = rw e

IsAuthorised-HasToken :
    (o : World) (s : Session) (e : o.session ≡ some s) (r : Request)
    → IsAuthorised o r
    → HasToken s r
IsAuthorised-HasToken o s e r (inl same) = inl (same ∙ request_headers-session o s e)
IsAuthorised-HasToken o s e r (inr public) = inr public

pub All-HasToken :
    (o : World) (s : Session) (e : o.session ≡ some s) (rs : List Request)
    → All (IsAuthorised o) rs
    → All (HasToken s) rs
All-HasToken o s e [] h = tt
All-HasToken o s e (r ∷ rs) h = (IsAuthorised-HasToken o s e r h.0, All-HasToken o s e rs h.1)

-- Whatever guarded command is run in a render with a session, from a world that has sent nothing and
-- whose log holds at most 100 lines: every request that it sends carries that session's token, or is
-- a GET, without credentials, of the catalog tree, of a search of the catalog, the state of the LLM provider or the billing policy; and
-- the log still holds at most 100 lines.
pub guarded-HasToken :
    (o w : World) (s : Session) (g : Guarded)
    → o.session ≡ some s
    → w.sent ≡ []
    → length w.runner.log_lines ≤ 100
    → All (HasToken s) (guarded o g w).1.sent × (length (guarded o g w).1.runner.log_lines ≤ 100)
guarded-HasToken o w s g e fresh log =
    let after = (guarded-Keeps o g).at w record { requests = rw fresh tt; log = log } in
    (All-HasToken o s e _ after.requests, after.log)
