-- ===== src/Legacy.antt =====
-- archive/apps/web/src_legacy: the single-page client, handler by handler.
pub mod Types
pub mod Defaults
pub mod State
pub mod Monad
pub mod Api
pub mod Runner
pub mod Guards
pub mod Reset
pub mod Session
pub mod Loaders
pub mod Actions
pub mod Keeps
pub mod Sync
pub mod Bootstrap
pub mod Commands
pub mod Authority
pub mod Blocked
pub mod Status
pub mod Filters
mod Tests
