-- ===== src/Legacy/Types/Admin.antt =====
-- types.ts: the admin panel.
use remodelator.Base.{ℕ, String, Option, List}

pub record AdminSummary : Type 0 where
  pub users : ℕ
  pub estimates : ℕ
  pub line_items : ℕ
  pub billing_events : ℕ
  pub billing_total_amount : String
  pub catalog_nodes : ℕ
  pub catalog_items : ℕ

pub record AdminUserRow : Type 0 where
  pub id : String
  pub email : String
  pub role : String
  pub full_name : String
  pub created_at : String
  pub estimates_count : ℕ
  pub billing_events_count : ℕ
  pub audit_events_count : ℕ
  pub last_login_at : Option String
  pub last_activity_at : Option String

pub record AdminActivityRow : Type 0 where
  pub id : String
  pub user_id : String
  pub action : String
  pub entity_type : String
  pub entity_id : String
  pub details : Option String
  pub created_at : String

pub record AdminBillingRow : Type 0 where
  pub id : String
  pub user_id : String
  pub event_type : String
  pub amount : String
  pub currency : String
  pub details : Option String
  pub created_at : String

pub record PrunePayload : Type 0 where
  pub message : String
  pub deleted : ℕ
  pub retention_days : ℕ

pub data AdminResult : Type 0 where
  nothing : AdminResult
  summary : AdminSummary → AdminResult
  users : List AdminUserRow → AdminResult
  activity : List AdminActivityRow → AdminResult
  billing_ledger : List AdminBillingRow → AdminResult
  audit_prune_preview : PrunePayload → AdminResult
  audit_prune : PrunePayload → AdminResult
  demo_reset : String → AdminResult

pub record AdminFilters : Type 0 where
  pub limit : String
  pub user_search : String
  pub user_id : String
  pub activity_action : String
  pub activity_entity_type : String
  pub billing_event_type : String
  pub audit_prune_retention_days : String

pub data AdminActionKind : Type 0 where
  summary users activity billing_ledger audit_prune_preview audit_prune demo_reset : AdminActionKind
