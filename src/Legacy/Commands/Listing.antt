-- ===== src/Legacy/Commands/Listing.antt =====
-- The commands of archive/apps/web/src_legacy that need a session, one for each handler that
-- guardedRunners.ts protects.
use remodelator.Legacy.Types.{CatalogItem, EstimateActionKind, GroupScope, ReorderDirection}

pub data Guarded : Type 0 where
  create_estimate add_line_item update_estimate_details : Guarded
  apply_catalog_quickstart update_selected_line remove_selected_line : Guarded
  reorder_selected_line : ReorderDirection → Guarded
  group_line_items : GroupScope → Guarded
  estimate_action : EstimateActionKind → Guarded
  save_template apply_template : Guarded
  render_proposal generate_proposal_pdf export_estimate_json : Guarded
  simulate_estimate_charge simulate_subscription simulate_refund : Guarded
  simulate_card_attach simulate_checkout_complete simulate_usage_charge : Guarded
  simulate_invoice_paid simulate_invoice_failed simulate_cancel_subscription : Guarded
  add_catalog_item : CatalogItem → Guarded
  catalog_upsert catalog_import : Guarded
  suggest_llm apply_llm_suggestion : Guarded
  load_profile save_profile refresh_activity export_snapshot restore_snapshot : Guarded
