-- ===== src/Web/Admin.antt =====
-- apps/web/src/features/admin/AdminDashboardPage.tsx: the reset of the demonstration data and the pruning
-- of the audit trail. A press takes the next reply at once; without one the mutation stays pending until
-- its answer comes.
pub mod Laws
use Prim.Native.String.{◌++◌ as text_append}
use remodelator.Base.{
  String, Bool, true, false, not, ◌&&◌, ◌||◌, Option, none, some, List, [], ◌∷◌, ◌++◌,
  if◌then◌else◌,
}
use remodelator.Base.Json.{Json}
use remodelator.Base.Text.{text_eq, is_empty, trim}
use remodelator.Web.Api.Calls.{Call, demo_reset, prune_audit}
use remodelator.Web.Api.Send.{Encoding, joined, perform}
use remodelator.Web.App.{App, Runtime}
use remodelator.Web.Builtins.{Builtins}
use remodelator.Web.Client.{Result, member}
use remodelator.Web.Query.{Effect, invalidate, admin_activity_key, toast_success, toast_error}

-- `resetting` and `pruning` are `isPending` of the two mutations; `all_stale` tells whether `invalidateQueries()` was called, which marks every query.
pub record AdminPage : Type 0 where
  pub reset_confirm : String
  pub prune_retention : String
  pub resetting : Bool
  pub pruning : Bool
  pub all_stale : Bool
  pub effects : List Effect

unfoldable pub has_admin_api_key : App → Bool
has_admin_api_key app = not (is_empty (trim app.admin_api_key))

abbrev pub tell : Effect → AdminPage → AdminPage
tell e s = record s { effects = s.effects ++ e ∷ [] }

-- `onSuccess` and `onError` of `resetMutation`, now or later; a request that waits has neither
unfoldable pub after_reset : Result → AdminPage → AdminPage
after_reset (Result.returned body) s =
    tell (toast_success "Demo data reset")
      (record s { resetting = false; all_stale = true; reset_confirm = "" })
after_reset (Result.api_error e) s = tell (toast_error e.message) (record s { resetting = false })
after_reset (Result.thrown message) s = tell (toast_error message) (record s { resetting = false })
after_reset Result.waiting s = s

-- `disabled` of "Reset Demo", and of "Preview" and "Prune Audit"
unfoldable pub is_reset_disabled : AdminPage → App → Bool
unfolding has_admin_api_key
is_reset_disabled s app =
    not (text_eq s.reset_confirm "RESET") || s.resetting || not (has_admin_api_key app)

unfoldable pub is_prune_disabled : AdminPage → App → Bool
unfolding has_admin_api_key
is_prune_disabled s app = s.pruning || not (has_admin_api_key app)

module _ {N : Type 0} (js : Runtime) (web : Encoding) (num : Builtins N)
    (parse_int : String → N) where
  -- "Reset Demo"
  unfoldable pub press_reset : AdminPage → App → AdminPage × App
  unfolding is_reset_disabled after_reset
  press_reset s app =
      if is_reset_disabled s app
      then (s, app)
      else let (result, app') = perform js web (Call.admin demo_reset) app in
        (after_reset result (record s { resetting = true }), app')

  -- the days that are kept
  unfoldable pub sent_retention : String → String
  sent_retention text =
      let days = parse_int text in
      if num.is_finite days && num.is_positive days then num.to_text days else "90"

  unfoldable pub after_prune : Bool → Result → AdminPage → AdminPage
  after_prune dry_run (Result.returned body) s =
      tell
        (toast_success (
          if dry_run
          then joined
              ("Preview: " ∷ num.in_text (member body "deleted") ∷ " records would be pruned" ∷ [])
          else joined ("Pruned " ∷ num.in_text (member body "deleted") ∷ " records" ∷ [])))
        (tell (invalidate admin_activity_key) (record s { pruning = false }))
  after_prune dry_run (Result.api_error e) s =
      tell (toast_error e.message) (record s { pruning = false })
  after_prune dry_run (Result.thrown message) s =
      tell (toast_error message) (record s { pruning = false })
  after_prune dry_run Result.waiting s = s

  -- "Preview" and "Prune Audit"
  unfoldable pub press_prune : Bool → AdminPage → App → AdminPage × App
  unfolding sent_retention is_prune_disabled after_prune
  press_prune dry_run s app =
      if is_prune_disabled s app
      then (s, app)
      else let (result, app') =
          perform js web
            (Call.admin (prune_audit (some (sent_retention s.prune_retention)) (some dry_run)))
            app in
        (after_prune dry_run result (record s { pruning = true }), app')
