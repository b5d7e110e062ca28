-- ===== src/Legacy/Commands.antt =====
-- The commands that the panels of archive/apps/web/src_legacy offer, and the handler of each.
pub mod Listing
use remodelator.Legacy.Actions.Admin.{on_admin_request}
use remodelator.Legacy.Actions.Auth.{on_register, on_login, on_logout}
use remodelator.Legacy.Actions.Billing.{
  on_simulate_estimate_charge, on_simulate_subscription, on_simulate_refund,
  on_simulate_card_attach, on_simulate_checkout_complete, on_simulate_usage_charge,
  on_simulate_invoice_paid, on_simulate_invoice_failed, on_simulate_cancel_subscription,
}
use remodelator.Legacy.Actions.Catalog.{
  on_catalog_search, on_add_catalog_item, on_catalog_upsert, on_catalog_import,
}
use remodelator.Legacy.Actions.Estimates.{on_estimate_action}
use remodelator.Legacy.Actions.Llm.{on_suggest_llm, on_apply_llm_suggestion}
use remodelator.Legacy.Actions.Profile.{
  on_load_profile, on_save_profile, on_refresh_activity, on_export_snapshot, on_restore_snapshot,
}
use remodelator.Legacy.Actions.Proposals.{
  on_render_proposal, on_generate_proposal_pdf, on_export_estimate_json,
}
use remodelator.Legacy.Actions.Reorder.{
  on_apply_catalog_quickstart, on_reorder_selected_line, on_group_line_items,
}
use remodelator.Legacy.Actions.Templates.{on_save_template, on_apply_template}
use remodelator.Legacy.Actions.Workspace.{
  on_create_estimate, on_add_line_item, on_update_estimate_details, on_update_selected_line,
  on_remove_selected_line,
}
use remodelator.Legacy.Commands.Listing.{Guarded}
use remodelator.Legacy.Monad.{World, M, ⊤}
use remodelator.Legacy.Types.{AdminActionKind}

-- the handlers that `createGuardedRunners` protects
unfoldable pub guarded : World → Guarded → M ⊤
guarded o Guarded.create_estimate = on_create_estimate o
guarded o Guarded.add_line_item = on_add_line_item o
guarded o Guarded.update_estimate_details = on_update_estimate_details o
guarded o Guarded.apply_catalog_quickstart = on_apply_catalog_quickstart o
guarded o Guarded.update_selected_line = on_update_selected_line o
guarded o Guarded.remove_selected_line = on_remove_selected_line o
guarded o (Guarded.reorder_selected_line direction) = on_reorder_selected_line o direction
guarded o (Guarded.group_line_items scope) = on_group_line_items o scope
guarded o (Guarded.estimate_action kind) = on_estimate_action o kind
guarded o Guarded.save_template = on_save_template o
guarded o Guarded.apply_template = on_apply_template o
guarded o Guarded.render_proposal = on_render_proposal o
guarded o Guarded.generate_proposal_pdf = on_generate_proposal_pdf o
guarded o Guarded.export_estimate_json = on_export_estimate_json o
guarded o Guarded.simulate_estimate_charge = on_simulate_estimate_charge o
guarded o Guarded.simulate_subscription = on_simulate_subscription o
guarded o Guarded.simulate_refund = on_simulate_refund o
guarded o Guarded.simulate_card_attach = on_simulate_card_attach o
guarded o Guarded.simulate_checkout_complete = on_simulate_checkout_complete o
guarded o Guarded.simulate_usage_charge = on_simulate_usage_charge o
guarded o Guarded.simulate_invoice_paid = on_simulate_invoice_paid o
guarded o Guarded.simulate_invoice_failed = on_simulate_invoice_failed o
guarded o Guarded.simulate_cancel_subscription = on_simulate_cancel_subscription o
guarded o (Guarded.add_catalog_item item) = on_add_catalog_item o item
guarded o Guarded.catalog_upsert = on_catalog_upsert o
guarded o Guarded.catalog_import = on_catalog_import o
guarded o Guarded.suggest_llm = on_suggest_llm o
guarded o Guarded.apply_llm_suggestion = on_apply_llm_suggestion o
guarded o Guarded.load_profile = on_load_profile o
guarded o Guarded.save_profile = on_save_profile o
guarded o Guarded.refresh_activity = on_refresh_activity o
guarded o Guarded.export_snapshot = on_export_snapshot o
guarded o Guarded.restore_snapshot = on_restore_snapshot o

pub data Command : Type 0 where
  guarded_command : Guarded → Command
  catalog_search register login logout : Command
  admin_request : AdminActionKind → Command

unfoldable pub handle : World → Command → M ⊤
handle o (guarded_command g) = guarded o g
handle o catalog_search = on_catalog_search o
handle o register = on_register o
handle o login = on_login o
handle o logout = on_logout
handle o (admin_request kind) = on_admin_request o kind
