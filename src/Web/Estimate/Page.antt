-- ===== src/Web/Estimate/Page.antt =====
-- EstimateDetailPage.tsx: the page as a machine of events, running mutations and their outcomes.
pub mod State
pub mod Bodies
pub mod Labor
pub mod Mutations
pub mod Forms
pub mod Handlers
pub mod Events
pub mod Queue
pub mod Ends
pub mod Rules
pub mod Refine
pub mod Lone
pub mod Drain
pub mod Removal
pub mod Asked
pub mod Leave
pub mod Quantity
pub mod Keeps
pub mod Selected
