-- ===== src/Legacy/State.antt =====
-- The React state of the client, one record per state hook of archive/apps/web/src_legacy/lib.
mod Fields
mod Forms
pub use Fields.*
pub use Forms.*
