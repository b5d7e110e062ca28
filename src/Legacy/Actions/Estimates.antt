-- ===== src/Legacy/Actions/Estimates.antt =====
-- archive/apps/web/src_legacy/lib/estimateActions.ts
use Prim.Native.String.{◌++◌ as text_append}
use remodelator.Base.{String, none, some, [], ◌∷◌, if◌then◌else◌}
use remodelator.Base.Text.{is_empty}
use remodelator.Legacy.Actions.Common.{estimate_path}
use remodelator.Legacy.Api.{api_request}
use remodelator.Legacy.Api.Read.{ignored, as_estimate}
use remodelator.Legacy.Guards.{run_with_estimate}
use remodelator.Legacy.Loaders.{refresh_estimate_views}
use remodelator.Legacy.Monad.{World, M, ⊤, pure, ◌>>=◌, ◌>>◌, Method, Value, Headers, set_core}
use remodelator.Legacy.Types.{EstimateActionKind, recalc, duplicate, version, status, unlock}

abbrev pub kind_name : EstimateActionKind → String
kind_name recalc = "recalc"
kind_name duplicate = "duplicate"
kind_name version = "version"
kind_name status = "status"
kind_name unlock = "unlock"

-- The copy becomes the selected estimate, if the reply names it.
select_copy : String → String → M String
select_copy estimate_id copy_id =
    if is_empty copy_id
    then pure estimate_id
    else do set_core (λ c. record c { selected_estimate_id = some copy_id }); pure copy_id

post_copy : String → Headers → String → M String
unfolding select_copy
post_copy name headers estimate_id = do
  result ←
      api_request (estimate_path estimate_id (text_append "/" name)) Method.post_method none headers
        as_estimate
  select_copy estimate_id result.id

-- the request of each kind; it gives the estimate to load afterwards
estimate_request : World → EstimateActionKind → Headers → String → M String
unfolding post_copy
estimate_request o status headers estimate_id = do
  api_request (estimate_path estimate_id "/status") Method.post_method
      (some (("status", Value.text o.output.status_target) ∷ [])) headers ignored
  pure estimate_id
estimate_request o unlock headers estimate_id = do
  api_request (estimate_path estimate_id "/unlock") Method.post_method none headers ignored
  pure estimate_id
estimate_request o recalc headers estimate_id = do
  api_request (estimate_path estimate_id "/recalc") Method.post_method none headers ignored
  pure estimate_id
estimate_request o duplicate headers estimate_id = post_copy "duplicate" headers estimate_id
estimate_request o version headers estimate_id = post_copy "version" headers estimate_id

estimate_action : World → EstimateActionKind → Headers → String → M ⊤
unfolding estimate_request
estimate_action o kind headers estimate_id = do
  estimate_to_load ← estimate_request o kind headers estimate_id
  refresh_estimate_views o (some estimate_to_load)

unfoldable pub on_estimate_action : World → EstimateActionKind → M ⊤
unfolding estimate_action
on_estimate_action o kind =
    run_with_estimate o (text_append "Estimate " (kind_name kind))
      "Estimate action blocked: login required" "Estimate action blocked: select an estimate"
      (estimate_action o kind)
