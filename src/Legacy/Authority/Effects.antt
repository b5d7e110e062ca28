-- ===== src/Legacy/Authority/Effects.antt =====
-- The effects of archive/apps/web/src_legacy/lib/useSessionBootstrap.ts: what they send and keep.
use remodelator.Base.{◌≡◌, refl, none, []}
use remodelator.Legacy.Bootstrap.{session_changed, enter}
use remodelator.Legacy.Keeps.{Keeps}
use remodelator.Legacy.Monad.{World, machine}
use remodelator.Legacy.Reset.{clear_workspace, reset_profile}
use remodelator.Legacy.State.{initial_profile, initial_forms}
use remodelator.Legacy.Types.{ActivePanel}

-- When the session is gone, the effect sends nothing, resets the profile and the forms, drops the
-- estimates and the selection, and shows the session panel.
pub session_changed-without_session :
    (o w : World)
    → o.session ≡ none
    → let after = (session_changed o w).1 in
      (after.sent ≡ w.sent)
      × (after.profile ≡ initial_profile)
      × (after.forms ≡ initial_forms)
      × (after.core.estimates ≡ [])
      × (after.core.selected_estimate ≡ none)
      × (after.core.active_panel ≡ ActivePanel.session)
unfolding session_changed enter clear_workspace reset_profile machine
session_changed-without_session o w e = rw e (refl, refl, refl, refl, refl, refl)
