-- ===== src/Web.antt =====
-- apps/web/src: the web client.
pub mod Builtins
pub mod Query
pub mod Format
pub mod App
pub mod Client
pub mod Auth
pub mod Api
pub mod Routes
pub mod Debounce
pub mod Theme
pub mod Ui
pub mod Admin
pub mod Pages
pub mod Estimate
mod Tests
