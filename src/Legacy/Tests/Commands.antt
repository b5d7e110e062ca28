-- ===== src/Legacy/Tests/Commands.antt =====
-- Theorems on the commands and effects of archive/apps/web/src_legacy at concrete worlds.
use remodelator.Base.{◌≤◌, ◌≡◌, refl, String, true, false, none, some, [], ◌∷◌, length, All, arith}
use remodelator.Base.Text.{trim, is_empty}
use remodelator.Legacy.Actions.Admin.{on_admin_request}
use remodelator.Legacy.Actions.Admin.Laws.{on_admin_request-no_key}
use remodelator.Legacy.Actions.Auth.{on_logout}
use remodelator.Legacy.Actions.Auth.Laws.{SignedOut, on_logout-SignedOut}
use remodelator.Legacy.Actions.Billing.{on_simulate_estimate_charge}
use remodelator.Legacy.Actions.Billing.Laws.{on_simulate_estimate_charge-masks_failure}
use remodelator.Legacy.Api.{api_request}
use remodelator.Legacy.Api.Laws.{api_request-refused}
use remodelator.Legacy.Api.Read.{as_estimates}
use remodelator.Legacy.Authority.Commands.{guarded-HasToken, HasToken}
use remodelator.Legacy.Blocked.{guarded-without_session}
use remodelator.Legacy.Commands.{guarded}
use remodelator.Legacy.Commands.Listing.{Guarded}
use remodelator.Legacy.Monad.{Method, raised, World, Reply, M, ⊤, ok, pure, throw}
use remodelator.Legacy.Runner.{push_log}
use remodelator.Legacy.State.{initial_output}
use remodelator.Legacy.Types.{demo_reset}
use remodelator.Legacy.Tests.{ann, signed_out, signed_in, offline}

-- the charge is sent with the token
guarded-HasToken_example :
    All (HasToken ann) (guarded offline Guarded.simulate_estimate_charge offline).1.sent
    × (length (guarded offline Guarded.simulate_estimate_charge offline).1.runner.log_lines ≤ 100)
guarded-HasToken_example =
    guarded-HasToken offline offline ann Guarded.simulate_estimate_charge refl refl (omega arith)

guarded-without_session_example :
    (message : String) × (guarded signed_out Guarded.render_proposal signed_out
      ≡ push_log message signed_out)
guarded-without_session_example =
    guarded-without_session signed_out signed_out Guarded.render_proposal refl

on_logout-SignedOut_example :
    ((on_logout signed_in).0 ≡ ok tt)
    × SignedOut (on_logout signed_in).1
    × ((on_logout signed_in).1.sent ≡ [])
on_logout-SignedOut_example = on_logout-SignedOut signed_in

on_admin_request-no_key_example :
    let after = (on_admin_request signed_in demo_reset signed_in).1 in
    (after.sent ≡ [])
    × (after.replies ≡ [])
    × (after.session ≡ some ann)
    × (after.core ≡ signed_in.core)
    × (after.runner.action_status_is_error ≡ true)
    × (after.runner.busy ≡ false)
unfolding trim
on_admin_request-no_key_example = on_admin_request-no_key signed_in signed_in demo_reset refl refl

abbrev saved : M ⊤
saved = pure tt

abbrev fails : M ⊤
fails = throw "HTTP 500"

on_simulate_estimate_charge-masks_failure_example :
    let after = (on_simulate_estimate_charge offline offline).1 in
    (after.runner.action_status ≡ "Simulate estimate charge: completed.")
    × (after.runner.action_status_is_error ≡ true)
    × (after.output ≡ initial_output)
    × (after.replies ≡ [])
on_simulate_estimate_charge-masks_failure_example =
    on_simulate_estimate_charge-masks_failure offline offline ann "e1" "Failed to fetch" [] refl
      refl refl refl

-- a server that answers 503 with a page
abbrev down : World
down = record signed_in { replies = Reply.failed 503 none ∷ [] }

api_request-refused_example :
    (message : String) × ((api_request "/estimates" Method.get_method none [] as_estimates down).0
      ≡ raised message)
    × (is_empty message ≡ false)
api_request-refused_example =
    api_request-refused "/estimates" Method.get_method none [] as_estimates down 503 none [] refl
