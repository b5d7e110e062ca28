-- ===== src/Legacy/Types/Estimates.antt =====
-- types.ts: sessions, estimates, line items, templates, catalog and backups.
use remodelator.Base.{ℕ, String, Bool, Option, List}

pub record Session : Type 0 where
  pub email : String
  pub session_token : String
  pub role : String

pub record LineItem : Type 0 where
  pub id : String
  pub estimate_id : String
  pub sort_order : ℕ
  pub group_name : String
  pub item_name : String
  pub quantity : String
  pub unit_price : String
  pub item_markup_pct : String
  pub discount_value : String
  pub discount_is_percent : Bool
  pub labor_hours : String
  pub labor_rate : String
  pub total_price : String

-- The fields that the views read through `?? ""` may be null in a reply.
pub record Estimate : Type 0 where
  pub id : String
  pub title : String
  pub status : String
  pub version : ℕ
  pub customer_name : Option String
  pub customer_email : Option String
  pub customer_phone : Option String
  pub job_address : Option String
  pub estimate_markup_pct : Option String
  pub tax_rate_pct : Option String
  pub subtotal : String
  pub tax : String
  pub total : String
  pub updated_at : Option String
  pub line_items : Option (List LineItem)

pub record CatalogItem : Type 0 where
  pub id : String
  pub name : String
  pub unit_price : String
  pub labor_hours : String

pub record CatalogTreeItem : Type 0 where
  pub id : String
  pub name : String

pub record CatalogTreeNode : Type 0 where
  pub node_id : Option String
  pub name : String
  pub items : List CatalogTreeItem

pub record TemplateSummary : Type 0 where
  pub id : String
  pub name : String
  pub line_item_count : ℕ
  pub created_at : String

pub record BackupPayload : Type 0 where
  pub version : ℕ
  pub user_id : String
  pub generated_at : String
  pub estimates : List Estimate

pub record RestoreBackupResult : Type 0 where
  pub estimates_restored : ℕ
  pub line_items_restored : ℕ
