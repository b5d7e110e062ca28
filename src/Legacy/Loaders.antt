-- ===== src/Legacy/Loaders.antt =====
-- archive/apps/web/src_legacy/lib/dataLoaders.ts, with the options of the render `o`.
use Prim.Native.String.{◌++◌ as text_append}
use remodelator.Base.{
  String, false, Option, none, some, List, [], ◌∷◌, if◌then◌else◌, get_or_else, any,
}
use remodelator.Base.Text.{is_empty, or_text, text_eq, decimal}
use remodelator.Legacy.Api.{api_request}
use remodelator.Legacy.Api.Read.{
  as_catalog_tree, as_llm_status, as_estimates, as_estimate, as_ledger, as_billing_policy,
  as_provider_status, as_subscription_state, as_templates, as_profile, as_activity, as_audit,
}
use remodelator.Legacy.Defaults.{default_profile_role, default_profile_status}
use remodelator.Legacy.Guards.{auth_headers, when_session}
use remodelator.Legacy.Monad.{
  World, M, ⊤, done, pair, try_catch, ◌>>=◌, ◌>>◌, Method, set_core, set_catalog, set_llm,
  set_output, set_profile,
}
use remodelator.Legacy.Reset.{clear_workspace}
use remodelator.Legacy.Types.{LlmProviderStatus, TemplateSummary}

-- formatters.ts, `formatLlmStatus`
unfoldable pub format_llm_status : LlmProviderStatus → String
format_llm_status s =
    let live = if s.ready_for_live then "Live ready" else "BLOCKER: OpenRouter not configured" in
    let reason = get_or_else s.blocker_reason "" in
    let blocker = if is_empty reason then "" else text_append " | blocker=" reason in
    text_append "LLM: " (
      text_append live (
        text_append " | provider=" (
          text_append s.provider (
            text_append " | model=" (
              text_append s.model (
                text_append " | mode=" (
                  text_append s.live_mode (
                    text_append " | retries=" (
                      text_append (decimal s.max_retries) (
                        text_append " | max_change_pct="
                          (text_append s.max_price_change_pct blocker)))))))))))

unfoldable pub load_catalog_tree : M ⊤
load_catalog_tree = do
  nodes ← api_request "/catalog/tree" Method.get_method none [] as_catalog_tree
  set_catalog (λ c. record c { tree = nodes })

abbrev show_llm_status : LlmProviderStatus → M ⊤
show_llm_status status = set_llm λ l. record l {
  status = format_llm_status status;
  ready_for_live = status.ready_for_live;
  blocker_reason = get_or_else status.blocker_reason "";
}

read_llm_status : M ⊤
read_llm_status = do
  status ← api_request "/pricing/llm/status" Method.get_method none [] as_llm_status
  show_llm_status status

unfoldable pub load_llm_status : M ⊤
unfolding read_llm_status
load_llm_status = try_catch read_llm_status λ message. set_llm λ l. record l {
  status = text_append "LLM status unavailable: " message;
  ready_for_live = false;
  blocker_reason = message;
}

unfoldable pub load_billing_policy : M ⊤
load_billing_policy = do
  policy ← api_request "/billing/policy" Method.get_method none [] as_billing_policy
  set_output λ c. record c {
    billing_policy = some policy;
    billing_amount = policy.annual_subscription_amount;
    billing_details = "annual subscription simulation";
  }

-- the updater that `loadTemplates` gives `setSelectedTemplateId`
abbrev first_template : List TemplateSummary → String
first_template [] = ""
first_template (row ∷ rows) = row.id

unfoldable pub keep_selected_template : List TemplateSummary → String → String
keep_selected_template rows current =
    if is_empty current
    then first_template rows
    else if any (λ (row : TemplateSummary). text_eq row.id current) rows
    then current
    else first_template rows

module _ (o : World) where
  -- `if (!isSessionReady) { signed_out; return; }`
  abbrev when_ready : M ⊤ → M ⊤ → M ⊤
  when_ready = when_session o.session

  unfoldable pub load_estimates : M ⊤
  load_estimates = when_ready clear_workspace do
    items ← api_request "/estimates" Method.get_method none (auth_headers o) as_estimates
    set_core (λ c. record c { estimates = items })

  unfoldable pub load_estimate : String → M ⊤
  load_estimate estimate_id = when_ready done do
    est ←
        api_request (text_append "/estimates/" estimate_id) Method.get_method none (auth_headers o)
          as_estimate
    set_core λ c. record c { selected_estimate = some est; selected_estimate_id = some est.id }

  load_if_given : Option String → M ⊤
  unfolding load_estimate
  load_if_given none = done
  load_if_given (some estimate_id) =
      if is_empty estimate_id then done else load_estimate estimate_id

  unfoldable pub refresh_estimate_views : Option String → M ⊤
  unfolding load_estimates load_if_given
  refresh_estimate_views estimate_id = do load_estimates; load_if_given estimate_id

  unfoldable pub load_billing_ledger : M ⊤
  load_billing_ledger = when_ready (set_core λ c. record c { billing_ledger = [] }) do
    ledger ←
        api_request "/billing/ledger?limit=20" Method.get_method none (auth_headers o) as_ledger
    set_core (λ c. record c { billing_ledger = ledger })

  unfoldable pub load_billing_provider_status : M ⊤
  load_billing_provider_status =
      when_ready (set_output λ c. record c { billing_provider_status = none }) do
        status ←
            api_request "/billing/provider-status" Method.get_method none (auth_headers o)
              as_provider_status
        set_output (λ c. record c { billing_provider_status = some status })

  unfoldable pub load_subscription_state : M ⊤
  load_subscription_state = when_ready (set_output λ c. record c { subscription_state = none }) do
    state ←
        api_request "/billing/subscription-state" Method.get_method none (auth_headers o)
          as_subscription_state
    set_output (λ c. record c { subscription_state = some state })

  unfoldable pub load_templates : M ⊤
  unfolding keep_selected_template
  load_templates =
      when_ready (set_catalog λ c. record c { templates = []; selected_template_id = "" }) do
        rows ←
            api_request "/templates?limit=50" Method.get_method none (auth_headers o) as_templates
        set_catalog λ c. record c {
          templates = rows;
          selected_template_id = keep_selected_template rows c.selected_template_id;
        }

  unfoldable pub load_profile : M ⊤
  load_profile =
      when_ready
        (set_profile λ p. record p { role = default_profile_role; status = default_profile_status })
        do
          profile ← api_request "/profile" Method.get_method none (auth_headers o) as_profile
          set_profile λ p. record p {
            full_name = get_or_else profile.full_name "";
            role = or_text (get_or_else profile.role "") default_profile_role;
            labor_rate = profile.labor_rate;
            item_markup_pct = profile.default_item_markup_pct;
            estimate_markup_pct = profile.default_estimate_markup_pct;
            tax_rate_pct = profile.tax_rate_pct;
            status = text_append "Profile loaded for " profile.email;
          }

  -- `Promise.all` of two requests whose results are set together
  unfoldable pub load_activity_and_audit : M ⊤
  load_activity_and_audit =
      when_ready (set_profile λ p. record p { activity_summary = none; audit_trail = [] }) do
        results ←
            pair (api_request "/activity" Method.get_method none (auth_headers o) as_activity)
              (api_request "/audit?limit=25" Method.get_method none (auth_headers o) as_audit)
        set_profile λ p. record p { activity_summary = some results.0; audit_trail = results.1 }
