-- ===== src/Legacy/Reset.antt =====
-- archive/apps/web/src_legacy/lib/workspaceReset.ts, with the arguments that useAppController.ts passes.
use remodelator.Base.{none, []}
use remodelator.Legacy.Defaults.{
  default_billing_amount, default_billing_details, default_card_last4, default_subscription_id,
  default_cancel_reason, default_snapshot_status,
}
use remodelator.Legacy.Monad.{ok, M, ⊤}
use remodelator.Legacy.State.{
  CoreState, OutputState, CatalogState, WorkspaceForms, reset_estimate_form, reset_line_item_form,
  reset_edit_line_item_form, reset_profile_form,
}
use remodelator.Legacy.Types.{AdminResult}

abbrev clear_core : CoreState → CoreState
clear_core c = record c {
  estimates = [];
  selected_estimate_id = none;
  selected_estimate = none;
  selected_line_item_id = "";
  billing_ledger = [];
  admin_result = AdminResult.nothing;
}

abbrev clear_output : OutputState → OutputState
clear_output c = record c {
  proposal_preview = "";
  billing_response = none;
  billing_amount = default_billing_amount;
  billing_details = default_billing_details;
  idempotency_key = "";
  stripe_customer_email = "";
  stripe_card_last4 = default_card_last4;
  stripe_subscription_id = default_subscription_id;
  stripe_cancel_reason = default_cancel_reason;
  billing_policy = none;
  billing_provider_status = none;
  subscription_state = none;
  proposal_pdf_result = "";
  estimate_export_result = "";
}

abbrev clear_catalog : CatalogState → CatalogState
clear_catalog c = record c { templates = []; selected_template_id = ""; ops_output = "" }

abbrev clear_forms : WorkspaceForms → WorkspaceForms
clear_forms f = reset_edit_line_item_form (reset_line_item_form (reset_estimate_form f))

unfoldable pub clear_workspace : M ⊤
clear_workspace w = (
  ok tt,
  record w {
    core = clear_core w.core;
    forms = clear_forms w.forms;
    output = clear_output w.output;
    catalog = clear_catalog w.catalog;
    llm = record (w.llm) { suggestion = none; suggested_price = "" };
    profile = record (w.profile) {
      activity_summary = none;
      audit_trail = [];
      last_snapshot = none;
      snapshot_status = default_snapshot_status;
    };
  },
)

-- `resetProfileForm`
unfoldable pub reset_profile : M ⊤
reset_profile w = (ok tt, record w { profile = reset_profile_form w.profile })
