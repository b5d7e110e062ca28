-- ===== src/Web/Estimate/Types.antt =====
-- apps/web/src/api/types.ts: the types that the estimate page reads. The code reads `group_name` as one
-- that may be missing.
use remodelator.Base.{ℕ, String, Bool, Option, List}

pub record LineItem : Type 0 where
  pub id : String
  pub estimate_id : String
  pub sort_order : ℕ
  pub group_name : Option String
  pub item_name : String
  pub quantity : String
  pub unit_price : String
  pub item_markup_pct : String
  pub discount_value : String
  pub discount_is_percent : Bool
  pub labor_hours : String
  pub remodeler_labor_hours : String
  pub plumber_labor_hours : String
  pub tinner_labor_hours : String
  pub electrician_labor_hours : String
  pub designer_labor_hours : String
  pub labor_trade : String
  pub labor_rate : String
  pub total_price : String

-- `line_items` is empty where it is missing.
pub record Estimate : Type 0 where
  pub id : String
  pub title : String
  pub status : String
  pub version : ℕ
  pub customer_name : String
  pub customer_email : String
  pub customer_phone : String
  pub job_address : String
  pub estimate_markup_pct : String
  pub tax_rate_pct : String
  pub remodeler_labor_rate : String
  pub plumber_labor_rate : String
  pub tinner_labor_rate : String
  pub electrician_labor_rate : String
  pub designer_labor_rate : String
  pub subtotal : String
  pub tax : String
  pub total : String
  pub updated_at : Option String
  pub created_at : Option String
  pub line_items : List LineItem

pub record UserProfile : Type 0 where
  pub id : String
  pub email : String
  pub role : String
  pub full_name : String
  pub labor_rate : String
  pub remodeler_labor_rate : String
  pub plumber_labor_rate : String
  pub tinner_labor_rate : String
  pub electrician_labor_rate : String
  pub designer_labor_rate : String
  pub default_item_markup_pct : String
  pub default_estimate_markup_pct : String
  pub tax_rate_pct : String

-- an item of a node of the catalog
pub record NodeItem : Type 0 where
  pub id : String
  pub name : String
  pub unit_price : Option String
  pub labor_hours : Option String
  pub labor_trade : Option String

pub record CatalogTreeNode : Type 0 where
  pub node_id : Option String
  pub name : String
  pub items : List NodeItem
