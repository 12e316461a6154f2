-- ===== src/Domain.antt =====
-- app/domain: the typed requests, responses and records that travel between the layers.
pub mod Json
pub mod Trading
pub mod Portfolio
pub mod Reconciliation
pub mod Auth
