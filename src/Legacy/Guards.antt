-- ===== src/Legacy/Guards.antt =====
-- archive/apps/web/src_legacy/lib/guardedRunners.ts, with `authHeaders` of useAppController.ts. The
-- options are the values of the render in which the handler was made, `o`.
use remodelator.Base.{String, Option, none, some, [], ◌∷◌, if◌then◌else◌}
use remodelator.Base.Text.{is_empty}
use remodelator.Legacy.Monad.{World, M, ⊤, Headers}
use remodelator.Legacy.Types.{Session}
use remodelator.Legacy.Runner.{push_log, run}

-- `if (!session) { signed_out } else { … }`
unfoldable pub when_session : Option Session → M ⊤ → M ⊤ → M ⊤
when_session none signed_out body = signed_out
when_session (some _) signed_out body = body

-- `if (!id) { log } else { … }`
unfoldable pub when_given : Option String → String → (String → M ⊤) → M ⊤
when_given none message body = push_log message
when_given (some given) message body = if is_empty given then push_log message else body given

module _ (o : World) where
  unfoldable pub auth_headers : Headers
  auth_headers = elim (o.session) [
    | none ↦ []
    | some session ↦ ("x-session-token", session.session_token) ∷ []
  ]

  unfoldable pub run_with_session : String → String → (Headers → M ⊤) → M ⊤
  unfolding when_session
  run_with_session label blocked action =
      when_session o.session (push_log blocked) (run label (action auth_headers))

  -- the action that `runWithEstimate` hands on
  unfoldable pub with_estimate : String → (Headers → String → M ⊤) → Headers → M ⊤
  unfolding when_given
  with_estimate no_estimate action headers =
      when_given o.core.selected_estimate_id no_estimate (action headers)

  unfoldable pub run_with_estimate : String → String → String → (Headers → String → M ⊤) → M ⊤
  unfolding run_with_session with_estimate
  run_with_estimate label no_session no_estimate action =
      run_with_session label no_session (with_estimate no_estimate action)

  unfoldable pub with_line : String → (Headers → String → String → M ⊤) → Headers → String → M ⊤
  with_line no_line action headers estimate_id =
      if is_empty o.core.selected_line_item_id
      then push_log no_line
      else action headers estimate_id o.core.selected_line_item_id

  unfoldable pub run_with_estimate_line :
      String → String → String → String → (Headers → String → String → M ⊤) → M ⊤
  unfolding run_with_estimate with_line
  run_with_estimate_line label no_session no_estimate no_line action =
      run_with_estimate label no_session no_estimate (with_line no_line action)
