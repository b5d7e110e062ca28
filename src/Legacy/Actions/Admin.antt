-- ===== src/Legacy/Actions/Admin.antt =====
-- archive/apps/web/src_legacy/lib/adminActions.ts
pub mod Laws
use Prim.Native.String.{◌++◌ as text_append}
use remodelator.Base.{
  ℕ, String, Bool, true, false, Option, none, some, List, [], ◌∷◌, ◌++◌, ◌&&◌, not, if◌then◌else◌,
  get_or_else,
}
use remodelator.Base.Int.{ℤ, parse_int, at_least}
use remodelator.Base.Text.{trim, or_text, is_empty, is_blank, text_eq, decimal}
use remodelator.Legacy.Api.{api_request, assign}
use remodelator.Legacy.Api.Read.{
  ignored, as_pruned, as_admin_summary, as_admin_users, as_admin_activity, as_admin_billing,
}
use remodelator.Legacy.Defaults.{api_limit_min, default_profile_role}
use remodelator.Legacy.Guards.{auth_headers}
use remodelator.Legacy.Loaders.{load_catalog_tree}
use remodelator.Legacy.Monad.{World, M, ⊤, throw, ◌>>=◌, ◌>>◌, Method, Headers, set_core}
use remodelator.Legacy.Reset.{clear_workspace, reset_profile}
use remodelator.Legacy.Runner.{push_log, clear_logs, run}
use remodelator.Legacy.Session.{persist_session, persist_admin_key}
use remodelator.Legacy.Types.{
  Session, AdminActionKind, AdminResult, PrunePayload, summary, users, activity, billing_ledger,
  audit_prune_preview, audit_prune, demo_reset,
}

-- `Number.parseInt(DEFAULT_ADMIN_FILTERS.limit, 10)`
abbrev pub default_limit : ℕ
default_limit = 200

-- `Number.parseInt(DEFAULT_ADMIN_FILTERS.auditPruneRetentionDays, 10)`
abbrev pub default_retention_days : ℕ
default_retention_days = 365

abbrev clamped : ℕ → Option ℤ → ℕ
clamped fallback none = fallback
clamped fallback (some parsed) = at_least 1 parsed

unfoldable pub parse_limit : String → ℕ
unfolding parse_int
parse_limit raw = clamped default_limit (parse_int raw)

unfoldable pub parse_retention_days : String → ℕ
unfolding parse_int
parse_retention_days raw = clamped default_retention_days (parse_int raw)

abbrev pub kind_name : AdminActionKind → String
kind_name summary = "summary"
kind_name users = "users"
kind_name activity = "activity"
kind_name billing_ledger = "billing-ledger"
kind_name audit_prune_preview = "audit-prune-preview"
kind_name audit_prune = "audit-prune"
kind_name demo_reset = "demo-reset"

-- `if (value) params.set(name, value)`
abbrev param : String → String → List (String × String)
param name value = if is_empty value then [] else (name, value) ∷ []

-- `(profileRole || session?.role || "user") === "admin"`
abbrev session_role : Option Session → String
session_role none = ""
session_role (some s) = s.role

unfoldable pub is_session_admin : World → Bool
is_session_admin o =
    text_eq (or_text o.profile.role (or_text (session_role o.session) default_profile_role)) "admin"

module _ (o : World) where
  -- the parameters that only some kinds have
  unfoldable pub kind_params : AdminActionKind → List (String × String)
  kind_params users = param "search" (trim o.core.admin_filters.user_search)
  kind_params activity =
      param "user_id" (trim o.core.admin_filters.user_id)
      ++ (param "action" (trim o.core.admin_filters.activity_action)
          ++ param "entity_type" (trim o.core.admin_filters.activity_entity_type))
  kind_params billing_ledger =
      param "user_id" (trim o.core.admin_filters.user_id)
      ++ param "event_type" (trim o.core.admin_filters.billing_event_type)
  kind_params _ = []

  unfoldable pub build_admin_read_path : AdminActionKind → String
  unfolding parse_limit kind_params
  build_admin_read_path kind = text_append "/admin/" (
      text_append (kind_name kind) (
        text_append "?" (
          o.platform.encode_params
            (("limit", decimal (parse_limit o.core.admin_filters.limit)) ∷ kind_params kind))))

  unfoldable pub build_admin_read_headers : Headers
  build_admin_read_headers =
      let key = trim o.admin_key in
      if is_empty key then auth_headers o else assign (auth_headers o) "x-admin-key" key

  demo_reset_action : M ⊤
  demo_reset_action = do
    api_request "/admin/demo-reset" Method.post_method none (("x-admin-key", trim o.admin_key) ∷ [])
        ignored
    set_core (λ c. record c { admin_result = AdminResult.demo_reset "Demo reset complete." })
    clear_logs
    persist_session none
    clear_workspace
    reset_profile
    load_catalog_tree
    push_log "Database reset complete; session cleared"

  prune_message : ℕ → ℕ → Bool → String
  prune_message deleted days dry_run = text_append (if dry_run then "Would remove" else "Removed") (
      text_append " " (
        text_append (decimal deleted)
          (text_append " audit events older than " (text_append (decimal days) " days."))))

  prune_result : ℕ → ℕ → Bool → AdminResult
  unfolding prune_message
  prune_result deleted days dry_run =
      let payload : PrunePayload = record {
        message = prune_message deleted days dry_run;
        deleted = deleted;
        retention_days = days;
      } in
      if dry_run then AdminResult.audit_prune_preview payload else AdminResult.audit_prune payload

  prune_log : ℕ → ℕ → Bool → String
  prune_log deleted days dry_run =
      text_append (if dry_run then "Audit prune preview" else "Audit prune complete") (
        text_append ": deleted="
          (text_append (decimal deleted) (text_append ", retention_days=" (decimal days))))

  prune_path : Bool → String
  unfolding parse_retention_days
  prune_path dry_run = text_append "/admin/audit-prune?retention_days=" (
      text_append (decimal (parse_retention_days o.core.admin_filters.audit_prune_retention_days))
        (text_append "&dry_run=" (if dry_run then "true" else "false")))

  prune_action : Bool → M ⊤
  unfolding prune_result prune_log prune_path
  prune_action dry_run = do
    r ←
        api_request (prune_path dry_run) Method.post_method none
          (("x-admin-key", trim o.admin_key) ∷ []) as_pruned
    set_core (λ c. record c { admin_result = prune_result r.0 r.1 r.2 })
    push_log (prune_log r.0 r.1 r.2)

  show_result : AdminResult → M ⊤
  show_result result = set_core (λ c. record c { admin_result = result })

  read_action : AdminActionKind → M ⊤
  unfolding show_result build_admin_read_path build_admin_read_headers
  read_action summary = do
    result ←
        api_request "/admin/summary" Method.get_method none build_admin_read_headers
          as_admin_summary
    show_result (AdminResult.summary result)
  read_action users = do
    result ←
        api_request (build_admin_read_path users) Method.get_method none build_admin_read_headers
          as_admin_users
    show_result (AdminResult.users result)
  read_action activity = do
    result ←
        api_request (build_admin_read_path activity) Method.get_method none build_admin_read_headers
          as_admin_activity
    show_result (AdminResult.activity result)
  read_action kind = do
    result ←
        api_request (build_admin_read_path kind) Method.get_method none build_admin_read_headers
          as_admin_billing
    show_result (AdminResult.billing_ledger result)

  guarded_read : AdminActionKind → M ⊤
  unfolding read_action is_session_admin
  guarded_read kind =
      if not (is_session_admin o) && is_blank o.admin_key
      then throw "Admin read access requires either an admin-role session or admin key."
      else read_action kind

  keyed : String → M ⊤ → M ⊤
  keyed refusal action = if is_blank o.admin_key then throw refusal else action

  admin_action : AdminActionKind → M ⊤
  unfolding keyed demo_reset_action prune_action guarded_read
  admin_action demo_reset = keyed "Demo reset requires a valid admin key." demo_reset_action
  admin_action audit_prune = keyed "Audit prune requires a valid admin key." (prune_action false)
  admin_action audit_prune_preview =
      keyed "Audit prune requires a valid admin key." (prune_action true)
  admin_action kind = guarded_read kind

  unfoldable pub on_admin_request : AdminActionKind → M ⊤
  unfolding admin_action
  on_admin_request kind = do
    persist_admin_key o
    run (text_append "Admin " (kind_name kind)) (admin_action kind)
