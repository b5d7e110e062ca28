-- ===== src/Legacy/Types/Rest.antt =====
-- types.ts: profile, activity and the panels' enums.
use remodelator.Base.{ℕ, String, Option}

-- `full_name` and `role` are read through `??` and `||`, so they may be null in a reply.
pub record UserProfile : Type 0 where
  pub id : String
  pub email : String
  pub role : Option String
  pub full_name : Option String
  pub labor_rate : String
  pub default_item_markup_pct : String
  pub default_estimate_markup_pct : String
  pub tax_rate_pct : String

pub record ActivitySummary : Type 0 where
  pub estimates : ℕ
  pub line_items : ℕ
  pub billing_events : ℕ
  pub audit_events : ℕ

pub record AuditEntry : Type 0 where
  pub id : String
  pub action : String
  pub entity_type : String
  pub entity_id : String
  pub created_at : String

pub data EstimateActionKind : Type 0 where
  recalc duplicate version status unlock : EstimateActionKind

pub data GroupScope : Type 0 where
  selected all : GroupScope

-- -1 and 1
pub data ReorderDirection : Type 0 where
  up down : ReorderDirection

pub data ActivePanel : Type 0 where
  session workspace catalog output admin : ActivePanel
