-- ===== src/Legacy/Monad.antt =====
-- The world that a handler of archive/apps/web/src_legacy runs in, and the actions over it.
mod Wire
mod Store
mod Actions
pub use remodelator.Base.Json.{Json, Items, Fields, get_field}
pub use Wire.*
pub use Store.*
unfoldable pub use Actions.*
