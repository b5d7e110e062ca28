-- ===== src/Legacy/Actions/Billing/Laws.antt =====
-- billingActions.ts: how a failed charge is shown.
use remodelator.Base.{◌≡◌, refl, String, true, false, some, List, ◌∷◌}
use remodelator.Base.Text.{is_empty}
use remodelator.Legacy.Actions.Billing.{on_simulate_estimate_charge}
use remodelator.Legacy.Api.{api_request}
use remodelator.Legacy.Guards.{run_with_estimate}
use remodelator.Legacy.Monad.{World, Reply, machine}
use remodelator.Legacy.Runner.{run}
use remodelator.Legacy.Types.{Session}

-- With a session and a selected estimate, a charge whose request meets a network error takes that one
-- reply, changes nothing that the output panel shows, and ends with "completed." and the error mark set.
pub on_simulate_estimate_charge-masks_failure :
    (o w : World) (s : Session) (estimate_id message : String) (rest : List Reply)
    → o.session ≡ some s
    → o.core.selected_estimate_id ≡ some estimate_id
    → is_empty estimate_id ≡ false
    → w.replies ≡ Reply.network_error message ∷ rest
    → let after = (on_simulate_estimate_charge o w).1 in
      (after.runner.action_status ≡ "Simulate estimate charge: completed.")
      × (after.runner.action_status_is_error ≡ true)
      × (after.output ≡ w.output)
      × (after.replies ≡ rest)
unfolding on_simulate_estimate_charge run_with_estimate api_request run machine
on_simulate_estimate_charge-masks_failure o w s estimate_id message rest session selected given
      failed =
    simp (session, selected, given, failed) (refl, refl, refl, refl)
