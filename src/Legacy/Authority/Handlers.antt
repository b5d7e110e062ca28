-- ===== src/Legacy/Authority/Handlers.antt =====
-- The handlers of archive/apps/web/src_legacy/lib that need a session: what each sends.
use remodelator.Base.{ℕ, String, Option, none, some}
use remodelator.Legacy.Actions.Estimates.{on_estimate_action}
use remodelator.Legacy.Actions.Workspace.{
  on_create_estimate, on_add_line_item, on_update_estimate_details, on_update_selected_line,
  on_remove_selected_line,
}
use remodelator.Legacy.Actions.Reorder.{
  on_apply_catalog_quickstart, move_line, on_reorder_selected_line, on_group_line_items,
}
use remodelator.Legacy.Actions.Templates.{on_save_template, on_apply_template}
use remodelator.Legacy.Actions.Proposals.{
  on_render_proposal, on_generate_proposal_pdf, on_export_estimate_json,
}
use remodelator.Legacy.Actions.Billing.{
  on_simulate_estimate_charge, on_simulate_subscription, on_simulate_refund,
  on_simulate_card_attach, on_simulate_checkout_complete, on_simulate_usage_charge,
  on_simulate_invoice_paid, on_simulate_invoice_failed, on_simulate_cancel_subscription,
}
use remodelator.Legacy.Actions.Catalog.{
  import_parsed, on_add_catalog_item, on_catalog_upsert, on_catalog_import,
}
use remodelator.Legacy.Actions.Llm.{suggest_for, on_suggest_llm, on_apply_llm_suggestion}
use remodelator.Legacy.Actions.Profile.{
  download, restore_given, on_load_profile, on_save_profile, on_refresh_activity,
  on_export_snapshot, on_restore_snapshot,
}
use remodelator.Legacy.Authority.{IsAuthorised, Keeps-IsAuthorised, Keeps-public, Keeps-search}
use remodelator.Legacy.Authority.Loads.{
  load_catalog_tree-Keeps, refresh_estimate_views-Keeps, load_llm_status-Keeps,
  load_billing_ledger-Keeps, load_subscription_state-Keeps, load_templates-Keeps,
  load_profile-Keeps, load_activity_and_audit-Keeps, run_with_session-Keeps,
  run_with_estimate-Keeps, run_with_estimate_line-Keeps,
}
use remodelator.Legacy.Keeps.{Keeps}
use remodelator.Legacy.Keeps.Rules.{keeps_rules}
use remodelator.Legacy.Monad.{World, Json}
use remodelator.Legacy.Types.{
  CatalogItem, LineItem, BackupPayload, EstimateActionKind, recalc, duplicate, version, status,
  unlock, GroupScope, ReorderDirection,
}
use remodelator.Legacy.Guards.{auth_headers}

ruleset authority_rules = (
  keeps_rules, Keeps-IsAuthorised, Keeps-public, Keeps-search, load_catalog_tree-Keeps,
  refresh_estimate_views-Keeps, load_llm_status-Keeps, load_billing_ledger-Keeps,
  load_subscription_state-Keeps, load_templates-Keeps, load_profile-Keeps,
  load_activity_and_audit-Keeps, run_with_session-Keeps, run_with_estimate-Keeps,
  run_with_estimate_line-Keeps,
)

module _ (o : World) where
  pub on_estimate_action-Keeps :
      (kind : EstimateActionKind) → Keeps (IsAuthorised o) (on_estimate_action o kind)
  unfolding on_estimate_action
  on_estimate_action-Keeps recalc = search authority_rules depth 12
  on_estimate_action-Keeps duplicate = search authority_rules depth 12
  on_estimate_action-Keeps version = search authority_rules depth 12
  on_estimate_action-Keeps status = search authority_rules depth 12
  on_estimate_action-Keeps unlock = search authority_rules depth 12

  pub on_create_estimate-Keeps : Keeps (IsAuthorised o) (on_create_estimate o)
  unfolding on_create_estimate
  on_create_estimate-Keeps = search authority_rules depth 12

  pub on_add_line_item-Keeps : Keeps (IsAuthorised o) (on_add_line_item o)
  unfolding on_add_line_item
  on_add_line_item-Keeps = search authority_rules depth 12

  pub on_update_estimate_details-Keeps : Keeps (IsAuthorised o) (on_update_estimate_details o)
  unfolding on_update_estimate_details
  on_update_estimate_details-Keeps = search authority_rules depth 12

  pub on_update_selected_line-Keeps : Keeps (IsAuthorised o) (on_update_selected_line o)
  unfolding on_update_selected_line
  on_update_selected_line-Keeps = search authority_rules depth 12

  pub on_remove_selected_line-Keeps : Keeps (IsAuthorised o) (on_remove_selected_line o)
  unfolding on_remove_selected_line
  on_remove_selected_line-Keeps = search authority_rules depth 12

  pub on_apply_catalog_quickstart-Keeps : Keeps (IsAuthorised o) (on_apply_catalog_quickstart o)
  unfolding on_apply_catalog_quickstart
  on_apply_catalog_quickstart-Keeps = search authority_rules depth 12

  move_line-Keeps :
      (index : Option ℕ) (id line_id : String)
      → Keeps (IsAuthorised o) (move_line o index (auth_headers o) id line_id)
  unfolding move_line
  move_line-Keeps none id line_id = search authority_rules
  move_line-Keeps (some index) id line_id = search authority_rules

  pub on_reorder_selected_line-Keeps :
      (direction : ReorderDirection) → Keeps (IsAuthorised o) (on_reorder_selected_line o direction)
  unfolding on_reorder_selected_line
  on_reorder_selected_line-Keeps direction =
      run_with_estimate_line-Keeps _ _ _ _ _ _ (λ id line_id. move_line-Keeps _ id line_id)

  pub on_group_line_items-Keeps :
      (scope : GroupScope) → Keeps (IsAuthorised o) (on_group_line_items o scope)
  unfolding on_group_line_items
  on_group_line_items-Keeps scope = search authority_rules depth 12

  pub on_save_template-Keeps : Keeps (IsAuthorised o) (on_save_template o)
  unfolding on_save_template
  on_save_template-Keeps = search authority_rules depth 12

  pub on_apply_template-Keeps : Keeps (IsAuthorised o) (on_apply_template o)
  unfolding on_apply_template
  on_apply_template-Keeps = search authority_rules depth 12

  pub on_render_proposal-Keeps : Keeps (IsAuthorised o) (on_render_proposal o)
  unfolding on_render_proposal
  on_render_proposal-Keeps = search authority_rules depth 12

  pub on_generate_proposal_pdf-Keeps : Keeps (IsAuthorised o) (on_generate_proposal_pdf o)
  unfolding on_generate_proposal_pdf
  on_generate_proposal_pdf-Keeps = search authority_rules depth 12

  pub on_export_estimate_json-Keeps : Keeps (IsAuthorised o) (on_export_estimate_json o)
  unfolding on_export_estimate_json
  on_export_estimate_json-Keeps = search authority_rules depth 12

  pub on_simulate_estimate_charge-Keeps : Keeps (IsAuthorised o) (on_simulate_estimate_charge o)
  unfolding on_simulate_estimate_charge
  on_simulate_estimate_charge-Keeps = search authority_rules depth 12

  pub on_simulate_subscription-Keeps : Keeps (IsAuthorised o) (on_simulate_subscription o)
  unfolding on_simulate_subscription
  on_simulate_subscription-Keeps = search authority_rules depth 12

  pub on_simulate_refund-Keeps : Keeps (IsAuthorised o) (on_simulate_refund o)
  unfolding on_simulate_refund
  on_simulate_refund-Keeps = search authority_rules depth 12

  pub on_simulate_card_attach-Keeps : Keeps (IsAuthorised o) (on_simulate_card_attach o)
  unfolding on_simulate_card_attach
  on_simulate_card_attach-Keeps = search authority_rules depth 12

  pub on_simulate_checkout_complete-Keeps : Keeps (IsAuthorised o) (on_simulate_checkout_complete o)
  unfolding on_simulate_checkout_complete
  on_simulate_checkout_complete-Keeps = search authority_rules depth 12

  pub on_simulate_usage_charge-Keeps : Keeps (IsAuthorised o) (on_simulate_usage_charge o)
  unfolding on_simulate_usage_charge
  on_simulate_usage_charge-Keeps = search authority_rules depth 12

  pub on_simulate_invoice_paid-Keeps : Keeps (IsAuthorised o) (on_simulate_invoice_paid o)
  unfolding on_simulate_invoice_paid
  on_simulate_invoice_paid-Keeps = search authority_rules depth 12

  pub on_simulate_invoice_failed-Keeps : Keeps (IsAuthorised o) (on_simulate_invoice_failed o)
  unfolding on_simulate_invoice_failed
  on_simulate_invoice_failed-Keeps = search authority_rules depth 12

  pub on_simulate_cancel_subscription-Keeps :
      Keeps (IsAuthorised o) (on_simulate_cancel_subscription o)
  unfolding on_simulate_cancel_subscription
  on_simulate_cancel_subscription-Keeps = search authority_rules depth 12

  pub on_add_catalog_item-Keeps :
      (item : CatalogItem) → Keeps (IsAuthorised o) (on_add_catalog_item o item)
  unfolding on_add_catalog_item
  on_add_catalog_item-Keeps item = search authority_rules depth 12

  pub on_catalog_upsert-Keeps : Keeps (IsAuthorised o) (on_catalog_upsert o)
  unfolding on_catalog_upsert
  on_catalog_upsert-Keeps = search authority_rules depth 12

  import_parsed-Keeps :
      (parsed : Option Json) → Keeps (IsAuthorised o) (import_parsed o parsed (auth_headers o))
  unfolding import_parsed
  import_parsed-Keeps none = search authority_rules
  import_parsed-Keeps (some (Json.array items)) = search authority_rules
  import_parsed-Keeps (some _) = search authority_rules

  pub on_catalog_import-Keeps : Keeps (IsAuthorised o) (on_catalog_import o)
  unfolding on_catalog_import
  on_catalog_import-Keeps = run_with_session-Keeps _ _ _ _ (import_parsed-Keeps _)

  suggest_for-Keeps : (line : Option LineItem) → Keeps (IsAuthorised o) (suggest_for o line)
  unfolding suggest_for
  suggest_for-Keeps none = search authority_rules
  suggest_for-Keeps (some line) = search authority_rules depth 12

  pub on_suggest_llm-Keeps : Keeps (IsAuthorised o) (on_suggest_llm o)
  unfolding on_suggest_llm
  on_suggest_llm-Keeps = search (authority_rules, suggest_for-Keeps)

  pub on_apply_llm_suggestion-Keeps : Keeps (IsAuthorised o) (on_apply_llm_suggestion o)
  unfolding on_apply_llm_suggestion
  on_apply_llm_suggestion-Keeps = search authority_rules depth 12

  pub on_load_profile-Keeps : Keeps (IsAuthorised o) (on_load_profile o)
  unfolding on_load_profile
  on_load_profile-Keeps = search authority_rules depth 12

  pub on_save_profile-Keeps : Keeps (IsAuthorised o) (on_save_profile o)
  unfolding on_save_profile
  on_save_profile-Keeps = search authority_rules depth 12

  pub on_refresh_activity-Keeps : Keeps (IsAuthorised o) (on_refresh_activity o)
  unfolding on_refresh_activity
  on_refresh_activity-Keeps = search authority_rules depth 12

  download-Keeps : Keeps (IsAuthorised o) download
  unfolding download
  download-Keeps = record { at = λ w h. record { requests = h.requests; log = h.log } }

  pub on_export_snapshot-Keeps : Keeps (IsAuthorised o) (on_export_snapshot o)
  unfolding on_export_snapshot
  on_export_snapshot-Keeps = search (authority_rules, download-Keeps) depth 12

  restore_given-Keeps :
      (snapshot : Option BackupPayload) → Keeps (IsAuthorised o) (restore_given o snapshot)
  unfolding restore_given
  restore_given-Keeps none = search authority_rules
  restore_given-Keeps (some snapshot) = search authority_rules depth 12

  pub on_restore_snapshot-Keeps : Keeps (IsAuthorised o) (on_restore_snapshot o)
  unfolding on_restore_snapshot
  on_restore_snapshot-Keeps = restore_given-Keeps o.profile.last_snapshot
