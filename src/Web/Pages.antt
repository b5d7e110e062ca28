-- ===== src/Web/Pages.antt =====
-- apps/web/src/features: the logic of the smaller pages.
pub mod Billing
pub mod Lists
pub mod Catalog
pub mod Settings
pub mod Quickstart
pub mod Proposal
pub mod Dashboard
