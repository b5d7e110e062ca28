-- ===== src/Legacy/Bootstrap.antt =====
-- archive/apps/web/src_legacy/lib/useSessionBootstrap.ts: the loads at start and at a change of session.
use Prim.Native.String.{◌++◌ as text_append}
use remodelator.Base.{String, Option, none, some}
use remodelator.Legacy.Loaders.{
  load_catalog_tree, load_llm_status, load_billing_policy, load_billing_provider_status,
  load_estimates, load_billing_ledger, load_subscription_state, load_templates, load_profile,
  load_activity_and_audit,
}
use remodelator.Legacy.Monad.{World, M, ⊤, ◌>>◌, both, try_catch, set_core}
use remodelator.Legacy.Reset.{clear_workspace, reset_profile}
use remodelator.Legacy.Runner.{push_log}
use remodelator.Legacy.Types.{Session, ActivePanel}

-- `catch (error) { pushLog(`${prefix}${message}`) }`
abbrev log_failure : String → String → M ⊤
log_failure prefix message = push_log (text_append prefix message)

public_loads : World → M ⊤
public_loads o =
    both load_catalog_tree
      (both load_llm_status (both load_billing_policy (load_billing_provider_status o)))

unfoldable pub bootstrap : World → M ⊤
unfolding public_loads
bootstrap o = try_catch (public_loads o) (log_failure "Bootstrap load failed: ")

session_loads : World → M ⊤
session_loads o = both (load_estimates o) (
    both (load_billing_ledger o) (
      both (load_subscription_state o)
        (both (load_templates o) (both (load_profile o) (load_activity_and_audit o)))))

-- `(current) => (current === "session" ? "workspace" : current)`
abbrev leave_session_panel : ActivePanel → ActivePanel
leave_session_panel ActivePanel.session = ActivePanel.workspace
leave_session_panel panel = panel

load_session : World → Session → M ⊤
unfolding session_loads
load_session o session = do
  session_loads o
  push_log (text_append "Session loaded for " session.email)

unfoldable pub enter : World → Option Session → M ⊤
unfolding load_session
enter o none = do
  clear_workspace
  reset_profile
  set_core (λ c. record c { active_panel = ActivePanel.session })
enter o (some session) = do
  set_core (λ c. record c { active_panel = leave_session_panel c.active_panel })
  try_catch (load_session o session) (log_failure "Failed to load session data: ")

unfoldable pub session_changed : World → M ⊤
unfolding enter
session_changed o = enter o o.session
