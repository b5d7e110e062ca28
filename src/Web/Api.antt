-- ===== src/Web/Api.antt =====
-- apps/web/src/api: the functions that call the backend.
pub mod Calls
pub mod Send
pub mod Paths
pub mod Stores
pub mod Laws
