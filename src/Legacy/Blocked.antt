-- ===== src/Legacy/Blocked.antt =====
-- archive/apps/web/src_legacy: the commands that need a session, when there is none.
use remodelator.Base.{◌≡◌, refl, String, Bool, true, false, Option, none, some, if◌then◌else◌}
use remodelator.Legacy.Actions.Estimates.{on_estimate_action}
use remodelator.Legacy.Actions.Workspace.{
  on_create_estimate, on_add_line_item, on_update_estimate_details, on_update_selected_line,
  on_remove_selected_line,
}
use remodelator.Legacy.Actions.Reorder.{
  on_apply_catalog_quickstart, on_reorder_selected_line, on_group_line_items,
}
use remodelator.Legacy.Actions.Templates.{on_save_template, on_apply_template}
use remodelator.Legacy.Actions.Proposals.{
  on_render_proposal, on_generate_proposal_pdf, on_export_estimate_json,
}
use remodelator.Legacy.Actions.Billing.{
  on_simulate_estimate_charge, on_simulate_subscription, on_simulate_refund,
  on_simulate_card_attach, on_simulate_checkout_complete, on_simulate_usage_charge,
  on_simulate_invoice_paid, on_simulate_invoice_failed, on_simulate_cancel_subscription,
}
use remodelator.Legacy.Actions.Catalog.{on_add_catalog_item, on_catalog_upsert, on_catalog_import}
use remodelator.Legacy.Actions.Llm.{suggest_for, on_suggest_llm, on_apply_llm_suggestion}
use remodelator.Legacy.Actions.Profile.{
  restore_given, on_load_profile, on_save_profile, on_refresh_activity, on_export_snapshot,
  on_restore_snapshot,
}
use remodelator.Legacy.Commands.{guarded}
use remodelator.Legacy.Commands.Listing.{Guarded}
use remodelator.Legacy.Guards.{run_with_session, run_with_estimate, run_with_estimate_line}
use remodelator.Legacy.Monad.{World, M, ⊤, Headers}
use remodelator.Legacy.Runner.{push_log}
use remodelator.Legacy.Types.{LineItem, BackupPayload}

-- all that the handler does is to log a line
record Blocked (m : M ⊤) : Type 0 where
  message : String
  only_logs : (w : World) → m w ≡ push_log message w

Blocked-push_log : (message : String) → Blocked (push_log message)
Blocked-push_log message = record { message = message; only_logs = λ w. refl }

Blocked-if : (b : Bool) (m n : M ⊤) → Blocked m → Blocked n → Blocked (if b then m else n)
Blocked-if true m n p q = p
Blocked-if false m n p q = q

module _ (o : World) (e : o.session ≡ none) where
  run_with_session-Blocked :
      (label blocked : String) (action : Headers → M ⊤)
      → Blocked (run_with_session o label blocked action)
  unfolding run_with_session
  run_with_session-Blocked label blocked action = record {
    message = blocked;
    only_logs = λ w. rw e refl;
  }

  run_with_estimate-Blocked :
      (label no_session no_estimate : String) (action : Headers → String → M ⊤)
      → Blocked (run_with_estimate o label no_session no_estimate action)
  unfolding run_with_estimate
  run_with_estimate-Blocked label no_session no_estimate action = record {
    message = no_session;
    only_logs = λ w. rw e refl;
  }

  run_with_estimate_line-Blocked :
      (label no_session no_estimate no_line : String) (action : Headers → String → String → M ⊤)
      → Blocked (run_with_estimate_line o label no_session no_estimate no_line action)
  unfolding run_with_estimate_line
  run_with_estimate_line-Blocked label no_session no_estimate no_line action = record {
    message = no_session;
    only_logs = λ w. rw e refl;
  }

  suggest_for-Blocked : (line : Option LineItem) → Blocked (suggest_for o line)
  unfolding suggest_for
  suggest_for-Blocked none = Blocked-push_log _
  suggest_for-Blocked (some line) = run_with_session-Blocked _ _ _

  restore_given-Blocked : (snapshot : Option BackupPayload) → Blocked (restore_given o snapshot)
  unfolding restore_given
  restore_given-Blocked none = Blocked-push_log _
  restore_given-Blocked (some snapshot) = run_with_session-Blocked _ _ _

ruleset blocked_rules = (
  run_with_session-Blocked, run_with_estimate-Blocked, run_with_estimate_line-Blocked,
  suggest_for-Blocked, restore_given-Blocked, Blocked-if, Blocked-push_log,
)

module _ (o : World) (e : o.session ≡ none) where
  guarded-Blocked : (g : Guarded) → Blocked (guarded o g)
  unfolding guarded on_create_estimate on_add_line_item on_update_estimate_details
      on_apply_catalog_quickstart on_update_selected_line on_remove_selected_line
      on_reorder_selected_line on_group_line_items on_estimate_action on_save_template
      on_apply_template on_render_proposal on_generate_proposal_pdf on_export_estimate_json
      on_simulate_estimate_charge on_simulate_subscription on_simulate_refund
      on_simulate_card_attach on_simulate_checkout_complete on_simulate_usage_charge
      on_simulate_invoice_paid on_simulate_invoice_failed on_simulate_cancel_subscription
      on_add_catalog_item on_catalog_upsert on_catalog_import on_suggest_llm on_apply_llm_suggestion
      on_load_profile on_save_profile on_refresh_activity on_export_snapshot on_restore_snapshot
  guarded-Blocked Guarded.create_estimate = search blocked_rules
  guarded-Blocked Guarded.add_line_item = search blocked_rules
  guarded-Blocked Guarded.update_estimate_details = search blocked_rules
  guarded-Blocked Guarded.apply_catalog_quickstart = search blocked_rules
  guarded-Blocked Guarded.update_selected_line = search blocked_rules
  guarded-Blocked Guarded.remove_selected_line = search blocked_rules
  guarded-Blocked (Guarded.reorder_selected_line direction) = search blocked_rules
  guarded-Blocked (Guarded.group_line_items scope) = search blocked_rules
  guarded-Blocked (Guarded.estimate_action kind) = search blocked_rules
  guarded-Blocked Guarded.save_template = search blocked_rules
  guarded-Blocked Guarded.apply_template = search blocked_rules
  guarded-Blocked Guarded.render_proposal = search blocked_rules
  guarded-Blocked Guarded.generate_proposal_pdf = search blocked_rules
  guarded-Blocked Guarded.export_estimate_json = search blocked_rules
  guarded-Blocked Guarded.simulate_estimate_charge = search blocked_rules
  guarded-Blocked Guarded.simulate_subscription = search blocked_rules
  guarded-Blocked Guarded.simulate_refund = search blocked_rules
  guarded-Blocked Guarded.simulate_card_attach = search blocked_rules
  guarded-Blocked Guarded.simulate_checkout_complete = search blocked_rules
  guarded-Blocked Guarded.simulate_usage_charge = search blocked_rules
  guarded-Blocked Guarded.simulate_invoice_paid = search blocked_rules
  guarded-Blocked Guarded.simulate_invoice_failed = search blocked_rules
  guarded-Blocked Guarded.simulate_cancel_subscription = search blocked_rules
  guarded-Blocked (Guarded.add_catalog_item item) = search blocked_rules
  guarded-Blocked Guarded.catalog_upsert = search blocked_rules
  guarded-Blocked Guarded.catalog_import = search blocked_rules
  guarded-Blocked Guarded.suggest_llm = search blocked_rules
  guarded-Blocked Guarded.apply_llm_suggestion = search blocked_rules
  guarded-Blocked Guarded.load_profile = search blocked_rules
  guarded-Blocked Guarded.save_profile = search blocked_rules
  guarded-Blocked Guarded.refresh_activity = search blocked_rules
  guarded-Blocked Guarded.export_snapshot = search blocked_rules
  guarded-Blocked Guarded.restore_snapshot = search blocked_rules

-- In a render without a session, every guarded command returns and does nothing but log one line: no
-- request is sent and no other state changes.
pub guarded-without_session :
    (o w : World) (g : Guarded)
    → o.session ≡ none
    → (message : String) × (guarded o g w ≡ push_log message w)
guarded-without_session o w g e = let b = guarded-Blocked o e g in (b.message, b.only_logs w)
