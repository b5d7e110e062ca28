-- ===== src/Legacy/Keeps.antt =====
-- Invariants of the handlers of archive/apps/web/src_legacy: what holds of every request sent and of
-- the log, with one rule for each way to build a handler.
pub mod Rules
use remodelator.Base.{ℕ, ◌≤◌, List, All, length}
use remodelator.Legacy.Monad.{World, M, Request}

-- every request sent satisfies `Q`, and the log holds 100 lines at most
pub record Fine (Q : Request → Type 0) (w : World) : Type 0 where
  pub requests : All Q w.sent
  pub log : length w.runner.log_lines ≤ 100

-- `m` keeps the invariant, however it ends
pub record Keeps {A : Type 0} (Q : Request → Type 0) (m : M A) : Type 0 where
  pub at : (w : World) → Fine Q w → Fine Q (m w).1
