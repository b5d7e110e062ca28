-- ===== src/Legacy/Filters.antt =====
-- archive/apps/web/src_legacy/lib/adminFilterBindings.ts: the setters of the admin filters.
use remodelator.Base.{String}
use remodelator.Base.Text.{or_text}
use remodelator.Legacy.Defaults.{default_admin_filters}
use remodelator.Legacy.Monad.{M, ⊤, set_core}
use remodelator.Legacy.Types.{AdminFilters}

-- `setAdminFilters`
unfoldable pub set_admin_filters : (AdminFilters → AdminFilters) → M ⊤
set_admin_filters f = set_core (λ c. record c { admin_filters = f c.admin_filters })

unfoldable pub set_admin_limit : String → M ⊤
unfolding set_admin_filters
set_admin_limit value =
    set_admin_filters (λ f. record f { limit = or_text value default_admin_filters.limit })

unfoldable pub set_admin_user_search : String → M ⊤
unfolding set_admin_filters
set_admin_user_search value = set_admin_filters (λ f. record f { user_search = value })

unfoldable pub set_admin_user_id_filter : String → M ⊤
unfolding set_admin_filters
set_admin_user_id_filter value = set_admin_filters (λ f. record f { user_id = value })

unfoldable pub set_admin_activity_action_filter : String → M ⊤
unfolding set_admin_filters
set_admin_activity_action_filter value =
    set_admin_filters (λ f. record f { activity_action = value })

unfoldable pub set_admin_activity_entity_type_filter : String → M ⊤
unfolding set_admin_filters
set_admin_activity_entity_type_filter value =
    set_admin_filters (λ f. record f { activity_entity_type = value })

unfoldable pub set_admin_billing_event_type_filter : String → M ⊤
unfolding set_admin_filters
set_admin_billing_event_type_filter value =
    set_admin_filters (λ f. record f { billing_event_type = value })

unfoldable pub set_admin_audit_prune_retention_days : String → M ⊤
unfolding set_admin_filters
set_admin_audit_prune_retention_days value = set_admin_filters (λ f. record f {
  audit_prune_retention_days = or_text value default_admin_filters.audit_prune_retention_days;
})
