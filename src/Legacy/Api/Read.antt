-- ===== src/Legacy/Api/Read.antt =====
-- The casts `as T` of the callers of archive/apps/web/src_legacy/lib/api.ts: `none` where the server
-- returned another type.
use remodelator.Base.{ℕ, String, Bool, Option, none, some, List}
use remodelator.Legacy.Monad.{Payload, AuthPayload}
use remodelator.Legacy.Types.{
  Estimate, CatalogItem, CatalogTreeNode, TemplateSummary, BackupPayload, RestoreBackupResult,
  BillingEvent, BillingMutationResult, BillingPolicy, BillingSubscriptionState,
  BillingProviderStatus, LlmSuggestion, LlmProviderStatus, AdminSummary, AdminUserRow,
  AdminActivityRow, AdminBillingRow, UserProfile, ActivitySummary, AuditEntry,
}

-- a call whose result is not used
abbrev pub ignored : Payload → Option (Unit {0})
ignored _ = some tt

abbrev pub as_auth : Payload → Option AuthPayload
as_auth (Payload.auth x) = some x
as_auth _ = none

abbrev pub as_estimate : Payload → Option Estimate
as_estimate (Payload.estimate x) = some x
as_estimate _ = none

abbrev pub as_estimates : Payload → Option (List Estimate)
as_estimates (Payload.estimates x) = some x
as_estimates _ = none

abbrev pub as_catalog_items : Payload → Option (List CatalogItem)
as_catalog_items (Payload.catalog_items x) = some x
as_catalog_items _ = none

abbrev pub as_catalog_tree : Payload → Option (List CatalogTreeNode)
as_catalog_tree (Payload.catalog_tree x) = some x
as_catalog_tree _ = none

abbrev pub as_templates : Payload → Option (List TemplateSummary)
as_templates (Payload.templates x) = some x
as_templates _ = none

abbrev pub as_template_saved : Payload → Option String
as_template_saved (Payload.template_saved x) = some x
as_template_saved _ = none

abbrev pub as_backup : Payload → Option BackupPayload
as_backup (Payload.backup x) = some x
as_backup _ = none

abbrev pub as_restored : Payload → Option RestoreBackupResult
as_restored (Payload.restored x) = some x
as_restored _ = none

abbrev pub as_ledger : Payload → Option (List BillingEvent)
as_ledger (Payload.ledger x) = some x
as_ledger _ = none

abbrev pub as_billing_mutation : Payload → Option BillingMutationResult
as_billing_mutation (Payload.billing_mutation x) = some x
as_billing_mutation _ = none

abbrev pub as_billing_policy : Payload → Option BillingPolicy
as_billing_policy (Payload.billing_policy x) = some x
as_billing_policy _ = none

abbrev pub as_subscription_state : Payload → Option BillingSubscriptionState
as_subscription_state (Payload.subscription_state x) = some x
as_subscription_state _ = none

abbrev pub as_provider_status : Payload → Option BillingProviderStatus
as_provider_status (Payload.provider_status x) = some x
as_provider_status _ = none

abbrev pub as_llm_suggestion : Payload → Option LlmSuggestion
as_llm_suggestion (Payload.llm_suggestion x) = some x
as_llm_suggestion _ = none

abbrev pub as_llm_status : Payload → Option LlmProviderStatus
as_llm_status (Payload.llm_status x) = some x
as_llm_status _ = none

abbrev pub as_admin_summary : Payload → Option AdminSummary
as_admin_summary (Payload.admin_summary x) = some x
as_admin_summary _ = none

abbrev pub as_admin_users : Payload → Option (List AdminUserRow)
as_admin_users (Payload.admin_users x) = some x
as_admin_users _ = none

abbrev pub as_admin_activity : Payload → Option (List AdminActivityRow)
as_admin_activity (Payload.admin_activity x) = some x
as_admin_activity _ = none

abbrev pub as_admin_billing : Payload → Option (List AdminBillingRow)
as_admin_billing (Payload.admin_billing x) = some x
as_admin_billing _ = none

abbrev pub as_profile : Payload → Option UserProfile
as_profile (Payload.profile x) = some x
as_profile _ = none

abbrev pub as_activity : Payload → Option ActivitySummary
as_activity (Payload.activity x) = some x
as_activity _ = none

abbrev pub as_audit : Payload → Option (List AuditEntry)
as_audit (Payload.audit x) = some x
as_audit _ = none

abbrev pub as_rendered : Payload → Option String
as_rendered (Payload.rendered x) = some x
as_rendered _ = none

abbrev pub as_written : Payload → Option (Option String)
as_written (Payload.written x) = some x
as_written _ = none

-- name, id and action of an upserted catalog item
abbrev pub as_upserted : Payload → Option (String × String × String)
as_upserted (Payload.upserted name item_id action) = some (name, item_id, action)
as_upserted _ = none

abbrev pub as_imported : Payload → Option (ℕ × ℕ)
as_imported (Payload.imported inserted updated) = some (inserted, updated)
as_imported _ = none

abbrev pub as_pruned : Payload → Option (ℕ × ℕ × Bool)
as_pruned (Payload.pruned deleted retention_days dry_run) = some (deleted, retention_days, dry_run)
as_pruned _ = none
