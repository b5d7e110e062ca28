-- ===== src/Web/Estimate/Page/State.antt =====
-- EstimateDetailPage.tsx: the state of the page, its mutations, and those that are still running.
use remodelator.Base.{ℕ, String, Bool, true, false, ◌&&◌, Option, none, List, [], any}
use remodelator.Base.Json.{Json}
use remodelator.Base.Set.{Ids}
use remodelator.Web.Api.Calls.{Estimates}
use remodelator.Web.Estimate.Types.{Estimate, LineItem, NodeItem}
use remodelator.Web.Query.{Effect}

pub record DetailForm : Type 0 where
  pub customer_name : String
  pub customer_email : String
  pub customer_phone : String
  pub job_address : String
  pub estimate_markup_pct : String
  pub tax_rate_pct : String
  pub remodeler_labor_rate : String
  pub plumber_labor_rate : String
  pub tinner_labor_rate : String
  pub electrician_labor_rate : String
  pub designer_labor_rate : String

pub record ItemForm : Type 0 where
  pub item_name : String
  pub quantity : String
  pub unit_price : String
  pub labor_hours : String
  pub labor_trade : String
  pub remodeler_labor_hours : String
  pub plumber_labor_hours : String
  pub tinner_labor_hours : String
  pub electrician_labor_hours : String
  pub designer_labor_hours : String
  pub item_markup_pct : String
  pub discount_value : String
  pub group_name : String

pub data AddItemMode : Type 0 where
  catalog manual : AddItemMode

-- what follows the success of an added item: the panel is reset, or the form takes the item's values
pub data After : Type 0 where
  reset_panel : After
  fill_form : NodeItem → After

-- a call of `mutate` of one of the page's mutations
pub data Command : Type 0 where
  update : Json → Command
  add_item : Json → After → Command
  delete_item : String → Command
  delete_estimate : Command
  bulk_move : List String → String → Command
  reorder : String → ℕ → Command
  recalc export_json : Command
  action : String → Command
  set_status : String → Command

pub data Kind : Type 0 where
  update_mutation add_item_mutation delete_item_mutation delete_estimate_mutation : Kind
  bulk_move_group_mutation reorder_mutation recalc_mutation export_mutation : Kind
  action_mutation status_mutation : Kind

-- the mutation that a command is given to
abbrev pub kind_of : Command → Kind
kind_of (update form) = update_mutation
kind_of (add_item item after) = add_item_mutation
kind_of (delete_item line) = delete_item_mutation
kind_of delete_estimate = delete_estimate_mutation
kind_of (bulk_move lines group) = bulk_move_group_mutation
kind_of (reorder line index) = reorder_mutation
kind_of recalc = recalc_mutation
kind_of export_json = export_mutation
kind_of (action name) = action_mutation
kind_of (set_status status) = status_mutation

-- A running command. The mutation observes the last one that it was given.
pub record Running : Type 0 where
  pub command : Command
  pub observed : Bool

pub record EstimatePage : Type 0 where
  pub estimate : Estimate
  pub editing_details : Bool
  pub detail_form : DetailForm
  pub adding_item : Bool
  pub add_item_mode : AddItemMode
  pub item_form : ItemForm
  pub catalog_search : String
  pub catalog_expanded_nodes : Ids
  pub catalog_selected_category : Option String
  pub close_catalog_after_add : Bool
  pub editing_line_item : Option LineItem
  pub pending_delete_line_item : Option LineItem
  pub confirm_delete_estimate_open : Bool
  pub selected_line_item_ids : Ids
  pub bulk_group_target : String
  pub bulk_custom_group_name : String
  pub actions_menu_open : Bool
  pub status_menu_open : Bool
  pub show_per_trade_labor_totals : Bool
  pub in_flight : List Running
  pub calls : List Estimates
  pub effects : List Effect

abbrev empty_detail_form : DetailForm
empty_detail_form = record {
  customer_name = "";
  customer_email = "";
  customer_phone = "";
  job_address = "";
  estimate_markup_pct = "";
  tax_rate_pct = "";
  remodeler_labor_rate = "";
  plumber_labor_rate = "";
  tinner_labor_rate = "";
  electrician_labor_rate = "";
  designer_labor_rate = "";
}

abbrev pub empty_item_form : ItemForm
empty_item_form = record {
  item_name = "";
  quantity = "";
  unit_price = "";
  labor_hours = "0";
  labor_trade = "remodeler";
  remodeler_labor_hours = "0";
  plumber_labor_hours = "0";
  tinner_labor_hours = "0";
  electrician_labor_hours = "0";
  designer_labor_hours = "0";
  item_markup_pct = "0";
  discount_value = "0";
  group_name = "";
}

-- the page when its estimate has come
unfoldable pub opened : Estimate → EstimatePage
opened estimate = record {
  estimate = estimate;
  editing_details = false;
  detail_form = empty_detail_form;
  adding_item = false;
  add_item_mode = catalog;
  item_form = empty_item_form;
  catalog_search = "";
  catalog_expanded_nodes = [];
  catalog_selected_category = none;
  close_catalog_after_add = false;
  editing_line_item = none;
  pending_delete_line_item = none;
  confirm_delete_estimate_open = false;
  selected_line_item_ids = [];
  bulk_group_target = "";
  bulk_custom_group_name = "";
  actions_menu_open = false;
  status_menu_open = false;
  show_per_trade_labor_totals = false;
  in_flight = [];
  calls = [];
  effects = [];
}

unfoldable pub reset_item_form : EstimatePage → EstimatePage
reset_item_form s = record s { item_form = empty_item_form }

unfoldable pub reset_add_item_panel : EstimatePage → EstimatePage
unfolding reset_item_form
reset_add_item_panel s = reset_item_form (record s {
  adding_item = false;
  add_item_mode = catalog;
  catalog_search = "";
  catalog_selected_category = none;
  catalog_expanded_nodes = [];
})

abbrev pub kind_eq : Kind → Kind → Bool
kind_eq update_mutation update_mutation = true
kind_eq add_item_mutation add_item_mutation = true
kind_eq delete_item_mutation delete_item_mutation = true
kind_eq delete_estimate_mutation delete_estimate_mutation = true
kind_eq bulk_move_group_mutation bulk_move_group_mutation = true
kind_eq reorder_mutation reorder_mutation = true
kind_eq recalc_mutation recalc_mutation = true
kind_eq export_mutation export_mutation = true
kind_eq action_mutation action_mutation = true
kind_eq status_mutation status_mutation = true
kind_eq _ _ = false

abbrev pub runs : Kind → Running → Bool
runs kind r = kind_eq kind (kind_of r.command)

-- `mutation.isPending`
abbrev pub is_pending : Kind → EstimatePage → Bool
is_pending kind s = any (λ (r : Running). r.observed && runs kind r) s.in_flight
