-- ===== src/Legacy/Actions/Admin/Laws.antt =====
-- adminActions.ts: limits, and the admin key of destructive requests.
use remodelator.Base.{ℕ, ◌≤◌, ◌≡◌, refl, String, Bool, true, false, Option, none, some, arith}
use remodelator.Base.Int.{ℤ, parse_int}
use remodelator.Base.Text.{is_blank}
use remodelator.Legacy.Actions.Admin.{clamped, parse_limit, parse_retention_days, on_admin_request}
use remodelator.Legacy.Monad.{World, machine}
use remodelator.Legacy.Runner.{run}
use remodelator.Legacy.Session.{persist_admin_key}
use remodelator.Legacy.Types.{AdminActionKind, audit_prune_preview, audit_prune, demo_reset}

clamped_pos : (fallback : ℕ) (parsed : Option ℤ) → 1 ≤ fallback → 1 ≤ clamped fallback parsed
clamped_pos fallback none h = h
clamped_pos fallback (some (ℤ.pos n)) h = omega arith
clamped_pos fallback (some (ℤ.negsuc n)) h = omega arith

-- Whatever the fields hold, the limit and the retention that are sent are at least 1.
pub parse_limit_pos : (raw : String) → (1 ≤ parse_limit raw) × (1 ≤ parse_retention_days raw)
unfolding parse_limit parse_retention_days
parse_limit_pos raw =
    (clamped_pos _ (parse_int raw) (omega arith), clamped_pos _ (parse_int raw) (omega arith))

-- the commands that change the database
abbrev pub is_destructive : AdminActionKind → Bool
is_destructive audit_prune_preview = true
is_destructive audit_prune = true
is_destructive demo_reset = true
is_destructive _ = false

-- Without an admin key, the commands that need one send nothing, take no reply, leave the session and
-- the core state, and end idle with the error mark set.
pub on_admin_request-no_key :
    (o w : World) (kind : AdminActionKind)
    → is_destructive kind ≡ true
    → is_blank o.admin_key ≡ true
    → let after = (on_admin_request o kind w).1 in
      (after.sent ≡ w.sent)
      × (after.replies ≡ w.replies)
      × (after.session ≡ w.session)
      × (after.core ≡ w.core)
      × (after.runner.action_status_is_error ≡ true)
      × (after.runner.busy ≡ false)
unfolding on_admin_request persist_admin_key run machine
on_admin_request-no_key o w audit_prune_preview d e = rw e (refl, refl, refl, refl, refl, refl)
on_admin_request-no_key o w audit_prune d e = rw e (refl, refl, refl, refl, refl, refl)
on_admin_request-no_key o w demo_reset d e = rw e (refl, refl, refl, refl, refl, refl)
on_admin_request-no_key o w _ d e = cc
