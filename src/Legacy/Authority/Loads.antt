-- ===== src/Legacy/Authority/Loads.antt =====
-- dataLoaders.ts and guardedRunners.ts: what the loads and the guarded actions send.
use remodelator.Base.{String, Option, none, some}
use remodelator.Legacy.Authority.{IsAuthorised, Keeps-IsAuthorised, Keeps-public}
use remodelator.Legacy.Guards.{
  auth_headers, run_with_session, run_with_estimate, run_with_estimate_line, with_estimate,
  with_line, when_given,
}
use remodelator.Legacy.Keeps.{Keeps}
use remodelator.Legacy.Keeps.Rules.{
  keeps_rules, Keeps-run, Keeps-when_session, Keeps-push_log, Keeps-if,
}
use remodelator.Legacy.Loaders.{
  load_catalog_tree, load_llm_status, load_billing_policy, load_estimates, load_estimate,
  refresh_estimate_views, load_billing_ledger, load_billing_provider_status,
  load_subscription_state, load_templates, load_profile, load_activity_and_audit,
}
use remodelator.Legacy.Monad.{World, M, ⊤, Headers, Request}

when_given-Keeps :
    {Q : Request → Type 0} (given : Option String) (message : String) {body : String → M ⊤}
    → ((id : String) → Keeps Q (body id))
    → Keeps Q (when_given given message body)
unfolding when_given
when_given-Keeps none message k = Keeps-push_log message
when_given-Keeps (some given) message k = Keeps-if _ (Keeps-push_log message) (k given)

module _ (o : World) where
  pub load_catalog_tree-Keeps : Keeps (IsAuthorised o) load_catalog_tree
  unfolding load_catalog_tree
  load_catalog_tree-Keeps = search (keeps_rules, Keeps-public)

  pub load_estimates-Keeps : Keeps (IsAuthorised o) (load_estimates o)
  unfolding load_estimates
  load_estimates-Keeps = search (keeps_rules, Keeps-IsAuthorised)

  pub load_estimate-Keeps : (id : String) → Keeps (IsAuthorised o) (load_estimate o id)
  unfolding load_estimate
  load_estimate-Keeps id = search (keeps_rules, Keeps-IsAuthorised)

  pub refresh_estimate_views-Keeps :
      (id : Option String) → Keeps (IsAuthorised o) (refresh_estimate_views o id)
  unfolding refresh_estimate_views
  refresh_estimate_views-Keeps none = search (keeps_rules, load_estimates-Keeps)
  refresh_estimate_views-Keeps (some id) =
      search (keeps_rules, load_estimates-Keeps, load_estimate-Keeps)

  pub load_llm_status-Keeps : Keeps (IsAuthorised o) load_llm_status
  unfolding load_llm_status
  load_llm_status-Keeps = search (keeps_rules, Keeps-public)

  pub load_billing_policy-Keeps : Keeps (IsAuthorised o) load_billing_policy
  unfolding load_billing_policy
  load_billing_policy-Keeps = search (keeps_rules, Keeps-public)

  pub load_billing_ledger-Keeps : Keeps (IsAuthorised o) (load_billing_ledger o)
  unfolding load_billing_ledger
  load_billing_ledger-Keeps = search (keeps_rules, Keeps-IsAuthorised)

  pub load_billing_provider_status-Keeps : Keeps (IsAuthorised o) (load_billing_provider_status o)
  unfolding load_billing_provider_status
  load_billing_provider_status-Keeps = search (keeps_rules, Keeps-IsAuthorised)

  pub load_subscription_state-Keeps : Keeps (IsAuthorised o) (load_subscription_state o)
  unfolding load_subscription_state
  load_subscription_state-Keeps = search (keeps_rules, Keeps-IsAuthorised)

  pub load_templates-Keeps : Keeps (IsAuthorised o) (load_templates o)
  unfolding load_templates
  load_templates-Keeps = search (keeps_rules, Keeps-IsAuthorised)

  pub load_profile-Keeps : Keeps (IsAuthorised o) (load_profile o)
  unfolding load_profile
  load_profile-Keeps = search (keeps_rules, Keeps-IsAuthorised)

  pub load_activity_and_audit-Keeps : Keeps (IsAuthorised o) (load_activity_and_audit o)
  unfolding load_activity_and_audit
  load_activity_and_audit-Keeps = search (keeps_rules, Keeps-IsAuthorised)

  pub run_with_session-Keeps :
      (label blocked : String) (action : Headers → M ⊤)
      → Keeps (IsAuthorised o) (action (auth_headers o))
      → Keeps (IsAuthorised o) (run_with_session o label blocked action)
  unfolding run_with_session
  run_with_session-Keeps label blocked action k =
      Keeps-when_session o.session (Keeps-push_log blocked) (Keeps-run label k)

  with_estimate-Keeps :
      (no_estimate : String) (action : Headers → String → M ⊤)
      → ((id : String) → Keeps (IsAuthorised o) (action (auth_headers o) id))
      → Keeps (IsAuthorised o) (with_estimate o no_estimate action (auth_headers o))
  unfolding with_estimate
  with_estimate-Keeps no_estimate action k =
      when_given-Keeps o.core.selected_estimate_id no_estimate k

  pub run_with_estimate-Keeps :
      (label no_session no_estimate : String) (action : Headers → String → M ⊤)
      → ((id : String) → Keeps (IsAuthorised o) (action (auth_headers o) id))
      → Keeps (IsAuthorised o) (run_with_estimate o label no_session no_estimate action)
  unfolding run_with_estimate
  run_with_estimate-Keeps label no_session no_estimate action k =
      run_with_session-Keeps label no_session (with_estimate o no_estimate action)
        (with_estimate-Keeps no_estimate action k)

  pub run_with_estimate_line-Keeps :
      (label no_session no_estimate no_line : String) (action : Headers → String → String → M ⊤)
      → ((id line_id : String) → Keeps (IsAuthorised o) (action (auth_headers o) id line_id))
      → Keeps
          (IsAuthorised o)
          (run_with_estimate_line o label no_session no_estimate no_line action)
  unfolding run_with_estimate_line
  run_with_estimate_line-Keeps label no_session no_estimate no_line action k =
      run_with_estimate-Keeps label no_session no_estimate (with_line o no_line action)
        (λ id. Keeps-if _ (Keeps-push_log no_line) (k id o.core.selected_line_item_id))
