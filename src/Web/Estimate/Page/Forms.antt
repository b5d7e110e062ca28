-- ===== src/Web/Estimate/Page/Forms.antt =====
-- EstimateDetailPage.tsx: the inputs of the two forms, each of which sets one field.
use remodelator.Base.{String}
use remodelator.Web.Estimate.Page.State.{DetailForm, ItemForm}

pub data DetailField : Type 0 where
  customer_name_input : DetailField
  customer_email_input : DetailField
  customer_phone_input : DetailField
  job_address_input : DetailField
  estimate_markup_pct_input : DetailField
  tax_rate_pct_input : DetailField
  remodeler_labor_rate_input : DetailField
  plumber_labor_rate_input : DetailField
  tinner_labor_rate_input : DetailField
  electrician_labor_rate_input : DetailField
  designer_labor_rate_input : DetailField

pub data ItemField : Type 0 where
  item_name_input : ItemField
  quantity_input : ItemField
  unit_price_input : ItemField
  remodeler_labor_hours_input : ItemField
  plumber_labor_hours_input : ItemField
  tinner_labor_hours_input : ItemField
  electrician_labor_hours_input : ItemField
  designer_labor_hours_input : ItemField
  item_markup_pct_input : ItemField
  group_name_input : ItemField

unfoldable pub set_detail : DetailField → String → DetailForm → DetailForm
set_detail customer_name_input value form = record form { customer_name = value }
set_detail customer_email_input value form = record form { customer_email = value }
set_detail customer_phone_input value form = record form { customer_phone = value }
set_detail job_address_input value form = record form { job_address = value }
set_detail estimate_markup_pct_input value form = record form { estimate_markup_pct = value }
set_detail tax_rate_pct_input value form = record form { tax_rate_pct = value }
set_detail remodeler_labor_rate_input value form = record form { remodeler_labor_rate = value }
set_detail plumber_labor_rate_input value form = record form { plumber_labor_rate = value }
set_detail tinner_labor_rate_input value form = record form { tinner_labor_rate = value }
set_detail electrician_labor_rate_input value form = record form { electrician_labor_rate = value }
set_detail designer_labor_rate_input value form = record form { designer_labor_rate = value }

unfoldable pub set_item : ItemField → String → ItemForm → ItemForm
set_item item_name_input value form = record form { item_name = value }
set_item quantity_input value form = record form { quantity = value }
set_item unit_price_input value form = record form { unit_price = value }
set_item remodeler_labor_hours_input value form = record form { remodeler_labor_hours = value }
set_item plumber_labor_hours_input value form = record form { plumber_labor_hours = value }
set_item tinner_labor_hours_input value form = record form { tinner_labor_hours = value }
set_item electrician_labor_hours_input value form = record form { electrician_labor_hours = value }
set_item designer_labor_hours_input value form = record form { designer_labor_hours = value }
set_item item_markup_pct_input value form = record form { item_markup_pct = value }
set_item group_name_input value form = record form { group_name = value }
