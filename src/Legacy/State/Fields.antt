-- ===== src/Legacy/State/Fields.antt =====
-- useAuthState.ts, useLlmState.ts, useCatalogState.ts, useOutputState.ts, useWorkspaceCoreState.ts and
-- the state of useActionRunner.ts, with the values that the hooks start with.
use remodelator.Base.{String, Bool, false, Option, none, List, []}
use remodelator.Legacy.Defaults.{
  default_admin_filters, default_llm_status, default_llm_context, default_catalog_query,
  default_catalog_import_json, default_template_name, default_billing_amount,
  default_billing_details, default_card_last4, default_subscription_id, default_cancel_reason,
  default_status_target,
}
use remodelator.Legacy.Types.{
  Estimate, CatalogItem, CatalogTreeNode, TemplateSummary, BillingEvent, BillingMutationResult,
  BillingPolicy, BillingSubscriptionState, BillingProviderStatus, LlmSuggestion, AdminResult,
  AdminFilters, ActivePanel,
}

pub record AuthState : Type 0 where
  pub register_email : String
  pub register_password : String
  pub register_name : String
  pub login_email : String
  pub login_password : String

abbrev pub initial_auth : AuthState
initial_auth = record {
  register_email = "";
  register_password = "";
  register_name = "";
  login_email = "";
  login_password = "";
}

pub record LlmState : Type 0 where
  pub status : String
  pub ready_for_live : Bool
  pub blocker_reason : String
  pub context : String
  pub suggested_price : String
  pub suggestion : Option LlmSuggestion

abbrev pub initial_llm : LlmState
initial_llm = record {
  status = default_llm_status;
  ready_for_live = false;
  blocker_reason = "";
  context = default_llm_context;
  suggested_price = "";
  suggestion = none;
}

pub record CatalogState : Type 0 where
  pub query : String
  pub results : List CatalogItem
  pub tree : List CatalogTreeNode
  pub upsert_name : String
  pub upsert_price : String
  pub upsert_labor : String
  pub upsert_description : String
  pub import_json : String
  pub ops_output : String
  pub template_name : String
  pub templates : List TemplateSummary
  pub selected_template_id : String

abbrev pub initial_catalog : CatalogState
initial_catalog = record {
  query = default_catalog_query;
  results = [];
  tree = [];
  upsert_name = "";
  upsert_price = "0";
  upsert_labor = "0";
  upsert_description = "";
  import_json = default_catalog_import_json;
  ops_output = "";
  template_name = default_template_name;
  templates = [];
  selected_template_id = "";
}

pub record OutputState : Type 0 where
  pub proposal_pdf_path : String
  pub proposal_pdf_result : String
  pub estimate_export_path : String
  pub estimate_export_result : String
  pub billing_amount : String
  pub billing_details : String
  pub idempotency_key : String
  pub stripe_customer_email : String
  pub stripe_card_last4 : String
  pub stripe_subscription_id : String
  pub stripe_cancel_reason : String
  pub status_target : String
  pub proposal_preview : String
  pub billing_response : Option BillingMutationResult
  pub billing_policy : Option BillingPolicy
  pub billing_provider_status : Option BillingProviderStatus
  pub subscription_state : Option BillingSubscriptionState

abbrev pub initial_output : OutputState
initial_output = record {
  proposal_pdf_path = "";
  proposal_pdf_result = "";
  estimate_export_path = "";
  estimate_export_result = "";
  billing_amount = default_billing_amount;
  billing_details = default_billing_details;
  idempotency_key = "";
  stripe_customer_email = "";
  stripe_card_last4 = default_card_last4;
  stripe_subscription_id = default_subscription_id;
  stripe_cancel_reason = default_cancel_reason;
  status_target = default_status_target;
  proposal_preview = "";
  billing_response = none;
  billing_policy = none;
  billing_provider_status = none;
  subscription_state = none;
}

pub record CoreState : Type 0 where
  pub estimates : List Estimate
  pub selected_estimate_id : Option String
  pub selected_estimate : Option Estimate
  pub selected_line_item_id : String
  pub billing_ledger : List BillingEvent
  pub admin_result : AdminResult
  pub admin_filters : AdminFilters
  pub active_panel : ActivePanel

abbrev pub initial_core : CoreState
initial_core = record {
  estimates = [];
  selected_estimate_id = none;
  selected_estimate = none;
  selected_line_item_id = "";
  billing_ledger = [];
  admin_result = AdminResult.nothing;
  admin_filters = default_admin_filters;
  active_panel = ActivePanel.session;
}

pub record RunnerState : Type 0 where
  pub busy : Bool
  pub action_status : String
  pub action_status_is_error : Bool
  pub log_lines : List String

abbrev pub initial_runner : RunnerState
initial_runner = record {
  busy = false;
  action_status = "Ready.";
  action_status_is_error = false;
  log_lines = [];
}
