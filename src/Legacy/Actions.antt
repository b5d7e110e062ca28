-- ===== src/Legacy/Actions.antt =====
-- The command handlers of archive/apps/web/src_legacy/lib, one child for each `create…Actions` factory.
-- A handler takes the render `o` in which it was made: its options are the values of that render.
pub mod Common
pub mod Estimates
pub mod Workspace
pub mod Reorder
pub mod Templates
pub mod Proposals
pub mod Card
pub mod Billing
pub mod Catalog
pub mod Admin
pub mod Llm
pub mod Profile
pub mod Auth
