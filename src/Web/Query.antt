-- ===== src/Web/Query.antt =====
-- What a page of apps/web/src does besides its requests and its own state: it marks queries as stale or
-- drops them, shows a toast, and goes to another address.
use remodelator.Base.{String, Option, none, some}
use remodelator.Base.Json.{Json}

-- the first part of a query key, and its parameter
pub data Key : Type 0 where
  estimate_key proposal_key : String → Key
  estimates_key profile_key templates_key catalog_tree_key catalog_search_key : Key
  billing_ledger_key billing_state_key : Key
  audit_key activity_key : Key
  admin_summary_key admin_users_key admin_activity_key admin_billing_key : Key

pub data Effect : Type 0 where
  invalidate remove : Key → Effect
  toast_success toast_error : String → Effect
  go_to assign_location : String → Effect
  close : Effect

-- how a mutation ends: with a value, an `Error`, or something else that is thrown
pub data Outcome : Type 0 where
  succeeded : Json → Outcome
  failed : String → Outcome
  failed_otherwise : Outcome

-- `err instanceof Error ? err.message : text`
abbrev pub error_text : Option String → String → String
error_text none text = text
error_text (some message) text = message
