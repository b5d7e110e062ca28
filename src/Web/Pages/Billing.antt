-- ===== src/Web/Pages/Billing.antt =====
-- apps/web/src/features/billing/BillingPage.tsx: the simulated billing events. Each function gives the
-- request of a mutation, or what follows its success.
use remodelator.Base.{String, Bool, true, not, ◌||◌, Option, none, some, List, [], ◌∷◌, ◌++◌}
use remodelator.Base.Json.{Json}
use remodelator.Base.Text.{text_eq}
use remodelator.Web.Api.Calls.{
  Billing, simulate_subscription, simulate_estimate_charge, simulate_event, simulate_refund,
}
use remodelator.Web.Api.Send.{joined}
use remodelator.Web.App.{Runtime}
use remodelator.Web.Builtins.{Builtins, some_number, text_if_given, object_of}
use remodelator.Web.Client.{member, given, shown}
use remodelator.Web.Query.{
  Effect, invalidate, billing_state_key, billing_ledger_key, toast_success, assign_location,
}

pub data BillingCommand : Type 0 where
  sim_subscription sim_charge sim_refund : BillingCommand
  sim_event : String → BillingCommand

-- an object that ends with the key, if one is typed
abbrev pub keyed : String → List (String × Option Json) → Json
keyed key entries = object_of (entries ++ ("idempotency_key", text_if_given key) ∷ [])

-- both queries of `invalidate`
abbrev stale : List Effect
stale = invalidate billing_state_key ∷ invalidate billing_ledger_key ∷ []

module _ {N : Type 0} (js : Runtime) (num : Builtins N) where
  -- `Number(policy?.realtime_pricing_amount ?? 10)`
  abbrev refund_amount : N → Option String → N
  refund_amount ten none = ten
  refund_amount ten (some amount) = num.to_number amount

  -- the request; `ten` is the number 10
  unfoldable pub billing_call : N → String → Option String → BillingCommand → Billing
  billing_call ten key amount sim_subscription = simulate_subscription (some (keyed key []))
  billing_call ten key amount sim_charge =
      simulate_estimate_charge (some (keyed key (("estimate_id", some (Json.text "manual")) ∷ [])))
  billing_call ten key amount (sim_event event_type) =
      simulate_event (keyed key (("event_type", some (Json.text event_type)) ∷ []))
  billing_call ten key amount sim_refund =
      simulate_refund (keyed key (("amount", some_number num (refund_amount ten amount)) ∷ []))

  -- `v ?? w` for members of the reply, where `null` counts as missing
  abbrev or_else : Option Json → Option Json → Option Json
  or_else none w = w
  or_else (some Json.null) w = w
  or_else (some v) w = some v

  abbrev in_brackets : Option Json → String
  in_brackets none = ""
  in_brackets (some v) = joined (" (" ∷ shown js v ∷ ")" ∷ [])

  abbrev subscription_text : Json → String
  subscription_text r = joined (
      "Subscription: "
      ∷ num.in_text (
          or_else (member r "event_type")
            (or_else (member r "status") (some (Json.text "processed"))))
      ∷ in_brackets (given js (member r "idempotency_status"))
      ∷ [])

  -- a reply with the address of a Stripe checkout leads there, and nothing else happens
  abbrev subscribed : Json → Option Json → List Effect
  subscribed r (some url) = assign_location (shown js url) ∷ []
  subscribed r none = stale ++ toast_success (subscription_text r) ∷ []

  unfoldable pub billing_success : BillingCommand → Json → List Effect
  billing_success sim_subscription r = subscribed r (given js (member r "checkout_url"))
  billing_success sim_charge r =
      stale ++ toast_success (joined ("Charge: " ∷ num.in_text (member r "amount") ∷ [])) ∷ []
  billing_success (sim_event event_type) r =
      stale ++ toast_success (joined ("Event: " ∷ num.in_text (member r "event_type") ∷ [])) ∷ []
  billing_success sim_refund r =
      stale ++ toast_success (joined ("Refund: " ∷ num.in_text (member r "amount") ∷ [])) ∷ []

-- the toast of a failure that is no `Error`
unfoldable pub billing_fallback : BillingCommand → String
billing_fallback sim_subscription = "Simulation failed"
billing_fallback sim_charge = "Charge failed"
billing_fallback (sim_event event_type) = "Event failed"
billing_fallback sim_refund = "Refund failed"

-- `provider?.provider !== 'stripe' || subscription?.active`, as the test of a button
unfoldable pub stripe_usage_ready : Option String → Option Bool → Bool
stripe_usage_ready none active = true
stripe_usage_ready (some provider) none = not (text_eq provider "stripe")
stripe_usage_ready (some provider) (some active) = not (text_eq provider "stripe") || active
