-- ===== src/Legacy/State/Forms.antt =====
-- useWorkspaceForms.ts and useProfileState.ts with their reset functions.
use remodelator.Base.{String, Bool, false, Option, none, List, []}
use remodelator.Legacy.Defaults.{
  default_quickstart_room, default_group_name, default_profile_role, default_profile_status,
  default_snapshot_status,
}
use remodelator.Legacy.Types.{ActivitySummary, AuditEntry, BackupPayload}

pub record EstimateForm : Type 0 where
  pub title : String
  pub customer_name : String
  pub customer_email : String
  pub customer_phone : String
  pub job_address : String
  pub estimate_markup_pct : String
  pub tax_rate_pct : String
  pub quickstart_catalog_node_name : String
  pub quickstart_max_items : String

pub record LineItemForm : Type 0 where
  pub name : String
  pub qty : String
  pub unit_price : String
  pub labor_hours : String
  pub item_markup_pct : String
  pub discount_value : String
  pub discount_is_percent : Bool
  pub group_name : String

pub record EditLineItemForm : Type 0 where
  pub quantity : String
  pub unit_price : String
  pub labor_hours : String
  pub item_markup_pct : String
  pub discount_value : String
  pub discount_is_percent : Bool
  pub group_name : String

pub record WorkspaceForms : Type 0 where
  pub estimate : EstimateForm
  pub line_item : LineItemForm
  pub edit : EditLineItemForm
  pub line_group_name : String

abbrev pub default_estimate_form : EstimateForm
default_estimate_form = record {
  title = "Kitchen Refresh";
  customer_name = "Demo Customer";
  customer_email = "";
  customer_phone = "";
  job_address = "";
  estimate_markup_pct = "5.00";
  tax_rate_pct = "8.25";
  quickstart_catalog_node_name = default_quickstart_room;
  quickstart_max_items = "5";
}

abbrev pub default_line_item_form : LineItemForm
default_line_item_form = record {
  name = "Countertop Install";
  qty = "1";
  unit_price = "85.00";
  labor_hours = "0";
  item_markup_pct = "10.00";
  discount_value = "0";
  discount_is_percent = false;
  group_name = default_group_name;
}

abbrev pub default_edit_line_item_form : EditLineItemForm
default_edit_line_item_form = record {
  quantity = "";
  unit_price = "";
  labor_hours = "";
  item_markup_pct = "";
  discount_value = "";
  discount_is_percent = false;
  group_name = "";
}

abbrev pub initial_forms : WorkspaceForms
initial_forms = record {
  estimate = default_estimate_form;
  line_item = default_line_item_form;
  edit = default_edit_line_item_form;
  line_group_name = default_group_name;
}

abbrev pub reset_estimate_form : WorkspaceForms → WorkspaceForms
reset_estimate_form f = record f { estimate = default_estimate_form }

abbrev pub reset_line_item_form : WorkspaceForms → WorkspaceForms
reset_line_item_form f = record f {
  line_item = default_line_item_form;
  line_group_name = default_group_name;
}

abbrev pub reset_edit_line_item_form : WorkspaceForms → WorkspaceForms
reset_edit_line_item_form f = record f { edit = default_edit_line_item_form }

pub record ProfileState : Type 0 where
  pub full_name : String
  pub role : String
  pub labor_rate : String
  pub item_markup_pct : String
  pub estimate_markup_pct : String
  pub tax_rate_pct : String
  pub status : String
  pub activity_summary : Option ActivitySummary
  pub audit_trail : List AuditEntry
  pub snapshot_status : String
  pub last_snapshot : Option BackupPayload

abbrev pub initial_profile : ProfileState
initial_profile = record {
  full_name = "";
  role = default_profile_role;
  labor_rate = "75.00";
  item_markup_pct = "10.00";
  estimate_markup_pct = "5.00";
  tax_rate_pct = "8.25";
  status = default_profile_status;
  activity_summary = none;
  audit_trail = [];
  snapshot_status = default_snapshot_status;
  last_snapshot = none;
}

abbrev pub reset_profile_form : ProfileState → ProfileState
reset_profile_form p = record p {
  full_name = "";
  role = default_profile_role;
  labor_rate = "75.00";
  item_markup_pct = "10.00";
  estimate_markup_pct = "5.00";
  tax_rate_pct = "8.25";
  status = default_profile_status;
}
