-- ===== src/Legacy/Actions/Billing.antt =====
-- archive/apps/web/src_legacy/lib/billingActions.ts
pub mod Laws
use Prim.Native.String.{◌++◌ as text_append}
use remodelator.Base.{String, Option, none, some, List, [], ◌∷◌, ◌++◌, if◌then◌else◌}
use remodelator.Base.Text.{trim, or_text, is_empty}
use remodelator.Legacy.Actions.Card.{clean_last4}
use remodelator.Legacy.Api.{api_request}
use remodelator.Legacy.Api.Read.{as_billing_mutation}
use remodelator.Legacy.Defaults.{default_subscription_id, default_cancel_reason}
use remodelator.Legacy.Guards.{run_with_session, run_with_estimate}
use remodelator.Legacy.Loaders.{load_billing_ledger, load_subscription_state}
use remodelator.Legacy.Monad.{
  World, M, ⊤, ◌>>=◌, ◌>>◌, both, Method, Value, Body, Headers, set_core, set_output,
}
use remodelator.Legacy.Types.{ActivePanel}

module _ (o : World) where
  billing_mutation : String → Body → Headers → M ⊤
  billing_mutation endpoint payload headers = do
    result ← api_request endpoint Method.post_method (some payload) headers as_billing_mutation
    set_output (λ c. record c { billing_response = some result })
    both (load_billing_ledger o) (load_subscription_state o)
    set_core (λ c. record c { active_panel = ActivePanel.output })

  unfoldable pub run_billing_mutation : String → String → Body → M ⊤
  unfolding billing_mutation
  run_billing_mutation label endpoint payload =
      run_with_session o label (text_append label " blocked: login required")
        (billing_mutation endpoint payload)

  unfoldable pub append_idempotency : Body → Body
  append_idempotency payload =
      let key = trim o.output.idempotency_key in
      if is_empty key then payload else payload ++ ("idempotency_key", Value.text key) ∷ []

  unfoldable pub run_gateway_event : String → Body → M ⊤
  unfolding run_billing_mutation append_idempotency
  run_gateway_event label payload =
      run_billing_mutation label "/billing/simulate-event" (append_idempotency payload)

  estimate_charge : Headers → String → M ⊤
  unfolding run_billing_mutation append_idempotency
  estimate_charge headers estimate_id =
      run_billing_mutation "Simulate estimate charge" "/billing/simulate-estimate-charge" (
        append_idempotency (
          ("estimate_id", Value.text estimate_id)
          ∷ ("details", Value.text o.output.billing_details)
          ∷ []))

  unfoldable pub on_simulate_estimate_charge : M ⊤
  unfolding estimate_charge
  on_simulate_estimate_charge =
      run_with_estimate o "Simulate estimate charge" "Billing blocked: login required"
        "Billing blocked: select an estimate" estimate_charge

  abbrev amount_body : Body
  amount_body =
      ("amount", Value.text o.output.billing_amount)
      ∷ ("details", Value.text o.output.billing_details)
      ∷ []

  unfoldable pub on_simulate_subscription : M ⊤
  unfolding run_billing_mutation append_idempotency
  on_simulate_subscription =
      run_billing_mutation "Simulate subscription" "/billing/simulate-subscription"
        (append_idempotency amount_body)

  unfoldable pub on_simulate_refund : M ⊤
  unfolding run_billing_mutation append_idempotency
  on_simulate_refund =
      run_billing_mutation "Simulate refund" "/billing/simulate-refund"
        (append_idempotency amount_body)

  abbrev event_body : String → String → Body
  event_body event_type details =
      ("event_type", Value.text event_type) ∷ ("details", Value.text details) ∷ []

  abbrev email_or_demo : String
  email_or_demo = or_text (trim o.output.stripe_customer_email) "demo@example.com"

  abbrev subscription_or_demo : String
  subscription_or_demo = or_text (trim o.output.stripe_subscription_id) default_subscription_id

  unfoldable pub on_simulate_card_attach : M ⊤
  unfolding run_gateway_event clean_last4
  on_simulate_card_attach = run_gateway_event "Simulate Stripe card attach" (
      event_body "payment_method_attached" (
        text_append "stripe_sim payment_method_attached email=" (
          text_append email_or_demo
            (text_append " card_last4=" (clean_last4 o.output.stripe_card_last4)))))

  unfoldable pub on_simulate_checkout_complete : M ⊤
  unfolding run_gateway_event
  on_simulate_checkout_complete = run_gateway_event "Simulate Stripe checkout complete" (
      ("event_type", Value.text "checkout_completed")
      ∷ ("amount", Value.text o.output.billing_amount)
      ∷ ("details", Value.text (text_append "stripe_sim checkout_completed email=" email_or_demo))
      ∷ [])

  usage_charge : Headers → String → M ⊤
  unfolding run_gateway_event
  usage_charge headers estimate_id =
      run_gateway_event "Simulate Stripe usage charge"
        (event_body "usage_charge" (text_append "stripe_sim usage_charge estimate_id=" estimate_id))

  unfoldable pub on_simulate_usage_charge : M ⊤
  unfolding usage_charge
  on_simulate_usage_charge =
      run_with_estimate o "Simulate Stripe usage charge"
        "Stripe usage charge blocked: login required"
        "Stripe usage charge blocked: select an estimate" usage_charge

  unfoldable pub on_simulate_invoice_paid : M ⊤
  unfolding run_gateway_event
  on_simulate_invoice_paid = run_gateway_event "Simulate Stripe invoice paid webhook" (
      event_body "invoice_paid"
        (text_append "stripe_sim webhook invoice.paid subscription_id=" subscription_or_demo))

  unfoldable pub on_simulate_invoice_failed : M ⊤
  unfolding run_gateway_event
  on_simulate_invoice_failed = run_gateway_event "Simulate Stripe invoice payment failed webhook" (
      event_body "invoice_payment_failed" (
        text_append "stripe_sim webhook invoice.payment_failed subscription_id="
          subscription_or_demo))

  unfoldable pub on_simulate_cancel_subscription : M ⊤
  unfolding run_gateway_event
  on_simulate_cancel_subscription =
      let reason = or_text (trim o.output.stripe_cancel_reason) default_cancel_reason in
      run_gateway_event "Simulate Stripe subscription cancel" (
        event_body "subscription_canceled" (
          text_append "stripe_sim subscription.canceled subscription_id="
            (text_append subscription_or_demo (text_append " reason=" reason))))
