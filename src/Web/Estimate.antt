-- ===== src/Web/Estimate.antt =====
-- apps/web/src/features/estimates: the logic of the estimate detail page.
pub mod Types
pub mod Selection
pub mod Groups
pub mod Page
pub mod Assist
pub mod Editor
