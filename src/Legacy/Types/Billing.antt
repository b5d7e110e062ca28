-- ===== src/Legacy/Types/Billing.antt =====
-- types.ts: billing and pricing assistance.
use remodelator.Base.{ℕ, String, Bool, Option}

pub record BillingEvent : Type 0 where
  pub id : String
  pub event_type : String
  pub amount : String
  pub currency : String
  pub details : String
  pub created_at : String

pub record BillingMutationResult : Type 0 where
  pub billing_event_id : String
  pub event_type : String
  pub amount : String
  pub idempotency_status : String
  pub idempotency_key : Option String

pub record BillingPolicy : Type 0 where
  pub billing_mode : String
  pub annual_subscription_amount : String
  pub realtime_pricing_amount : String
  pub currency : String

pub record BillingSubscriptionState : Type 0 where
  pub subscription_id : Option String
  pub status : String
  pub active : Bool
  pub canceled : Bool
  pub past_due : Bool
  pub last_event_type : Option String
  pub last_event_amount : Option String
  pub last_event_at : Option String
  pub annual_subscription_amount : String
  pub realtime_pricing_amount : String
  pub currency : String

pub record BillingProviderStatus : Type 0 where
  pub provider : String
  pub live_mode : String
  pub adapter_ready : Bool
  pub ready_for_live : Bool
  pub stripe_key_configured : Bool
  pub stripe_webhook_secret_configured : Bool
  pub blocker_reason : Option String

pub record LlmSuggestion : Type 0 where
  pub item_name : String
  pub current_unit_price : String
  pub suggested_unit_price : String
  pub confidence : Option String
  pub rationale : Option String
  pub provider : Option String
  pub model : Option String
  pub suggestion_mode : Option String

pub record LlmProviderStatus : Type 0 where
  pub provider : String
  pub model : String
  pub api_key_configured : Bool
  pub live_mode : String
  pub timeout_seconds : ℕ
  pub max_retries : ℕ
  pub max_price_change_pct : String
  pub simulation_available : Bool
  pub ready_for_live : Bool
  pub blocker_reason : Option String
