-- ===== src/Web/Api/Calls.antt =====
-- apps/web/src/api: the functions that call the backend. Each file is a type with a constructor for each
-- of its functions. A JSON argument is the value that a page gives to the function.
use remodelator.Base.{ℕ, String, Bool, Option}
use remodelator.Base.Json.{Json}

pub data Activity : Type 0 where
  get_activity_summary get_audit_trail export_backup : Activity
  restore_backup : Json → Activity

-- A number is given by its text.
pub data Admin : Type 0 where
  get_admin_summary demo_reset : Admin
  get_admin_users : Option String → Option String → Admin
  get_admin_activity : Option String → Option String → Option String → Option String → Admin
  get_admin_billing_ledger : Option String → Option String → Option String → Admin
  prune_audit : Option String → Option Bool → Admin

pub data Billing : Type 0 where
  get_billing_policy get_billing_provider_status get_subscription_state get_billing_ledger : Billing
  simulate_subscription simulate_estimate_charge : Option Json → Billing
  simulate_event simulate_refund : Json → Billing

pub data Catalog : Type 0 where
  get_catalog_tree : Catalog
  search_catalog : String → Catalog
  upsert_catalog_item import_catalog : Json → Catalog

pub data Estimates : Type 0 where
  list_estimates : Estimates
  get_estimate : String → Estimates
  create_estimate : Json → Estimates
  update_estimate : String → Json → Estimates
  delete_estimate : String → Estimates
  set_estimate_status : String → String → Estimates
  unlock_estimate duplicate_estimate version_estimate recalc_estimate : String → Estimates
  quickstart_estimate : String → Json → Estimates
  export_estimate : String → Option String → Estimates
  add_line_item : String → Json → Estimates
  update_line_item : String → String → Json → Estimates
  delete_line_item : String → String → Estimates
  reorder_line_item : String → String → ℕ → Estimates
  group_line_items : String → Json → Estimates

pub data Llm : Type 0 where
  get_llm_status : Llm
  get_llm_suggestion apply_llm_suggestion : Json → Llm

pub data Profile : Type 0 where
  get_profile : Profile
  update_profile : Json → Profile

pub data Proposals : Type 0 where
  render_proposal create_proposal_share_link render_public_proposal : String → Proposals
  generate_proposal_pdf : String → Option String → Proposals

pub data Templates : Type 0 where
  list_templates : Templates
  save_template apply_template : Json → Templates

-- every function of the directory but `downloadProposalPdf` and those of auth.ts
pub data Call : Type 0 where
  activity : Activity → Call
  admin : Admin → Call
  billing : Billing → Call
  catalog : Catalog → Call
  estimates : Estimates → Call
  llm : Llm → Call
  profile : Profile → Call
  proposals : Proposals → Call
  templates : Templates → Call
