-- ===== src/Browser.antt =====
-- services/browser-worker: the registries of the browser worker.
pub mod Tasks
pub mod Confirmations
pub mod SiteGrants
pub mod Idempotency
pub mod TabRegistry
