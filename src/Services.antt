-- ===== src/Services.antt =====
-- app/services: the strategy, the risk policy, market data, the account, execution.
pub mod Strategy
pub mod Risk
pub mod Market
pub mod Portfolio
pub mod Execution
pub mod Query
pub mod Reconciliation
pub mod Frames
pub mod Endings
pub mod Connections
pub mod Operational
