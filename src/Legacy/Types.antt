-- ===== src/Legacy/Types.antt =====
-- archive/apps/web/src_legacy/types.ts: the payloads of the HTTP interface and the panels' enums.
-- Money and rates travel as decimal texts; counts are natural numbers; `?`, `null` and `undefined` are
-- `Option`.
mod Estimates
mod Billing
mod Admin
mod Rest
pub use Estimates.*
pub use Billing.*
pub use Admin.*
pub use Rest.*
