-- ===== src/Legacy/Monad/Wire.antt =====
-- Requests as `fetch` receives them, and replies as it settles. A body is kept as the object that
-- `JSON.stringify` is given.
use remodelator.Base.{ℕ, String, Bool, Option, List}
use remodelator.Base.Json.{Json}
use remodelator.Legacy.Types.{
  Estimate, CatalogItem, CatalogTreeNode, TemplateSummary, BackupPayload, RestoreBackupResult,
  BillingEvent, BillingMutationResult, BillingPolicy, BillingSubscriptionState,
  BillingProviderStatus, LlmSuggestion, LlmProviderStatus, AdminSummary, AdminUserRow,
  AdminActivityRow, AdminBillingRow, UserProfile, ActivitySummary, AuditEntry,
}

pub data Method : Type 0 where
  get_method post_method put_method delete_method : Method

-- a member's value in a request body
pub data Value : Type 0 where
  text : String → Value
  number : ℕ → Value
  flag : Bool → Value
  json : Json → Value
  snapshot : BackupPayload → Value

abbrev pub Body : Type 0
Body = List (String × Value)

abbrev pub Headers : Type 0
Headers = List (String × String)

pub record Request : Type 0 where
  pub path : String
  pub verb : Method
  pub body : Option Body
  pub headers : Headers

-- `detail` of an error reply: a text, an array with the `msg` of its first entry, or anything else
pub data Detail : Type 0 where
  text : String → Detail
  empty_array : Detail
  array : Option String → Detail
  other : Detail

pub record ErrorEnvelope : Type 0 where
  pub error_message : Option String
  pub detail : Detail
  pub request_id : Option String

-- what `/auth/register` and `/auth/login` return
pub record AuthPayload : Type 0 where
  pub user_id : String
  pub email : String
  pub role : Option String
  pub session_token : Option String

-- the body of a successful reply, by the type at which the caller reads it
pub data Payload : Type 0 where
  auth : AuthPayload → Payload
  estimate : Estimate → Payload
  estimates : List Estimate → Payload
  catalog_items : List CatalogItem → Payload
  catalog_tree : List CatalogTreeNode → Payload
  templates : List TemplateSummary → Payload
  template_saved : String → Payload
  upserted : String → String → String → Payload
  imported : ℕ → ℕ → Payload
  backup : BackupPayload → Payload
  restored : RestoreBackupResult → Payload
  ledger : List BillingEvent → Payload
  billing_mutation : BillingMutationResult → Payload
  billing_policy : BillingPolicy → Payload
  subscription_state : BillingSubscriptionState → Payload
  provider_status : BillingProviderStatus → Payload
  llm_suggestion : LlmSuggestion → Payload
  llm_status : LlmProviderStatus → Payload
  admin_summary : AdminSummary → Payload
  admin_users : List AdminUserRow → Payload
  admin_activity : List AdminActivityRow → Payload
  admin_billing : List AdminBillingRow → Payload
  pruned : ℕ → ℕ → Bool → Payload
  profile : UserProfile → Payload
  activity : ActivitySummary → Payload
  audit : List AuditEntry → Payload
  rendered : String → Payload
  written : Option String → Payload
  empty : Payload

-- `fetch` rejects; the status is not in 200-299 (`none`: the body is no JSON); it is, and the body
-- is no JSON; it is, and the body is read
pub data Reply : Type 0 where
  network_error : String → Reply
  failed : ℕ → Option ErrorEnvelope → Reply
  bad_json : String → Reply
  success : Payload → Reply
