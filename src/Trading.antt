-- ===== src/Trading.antt =====
-- The trading context (apps/api/src/iguanatrader/contexts/trading): the ledger's tables and their
-- repositories, and the service that proposes, executes, reconciles and closes trades.
pub mod Models
pub mod Repository
pub mod Gateway
pub mod Service
pub mod Execute
pub mod Reconcile
pub mod Close
pub mod Propose
pub mod Daemon
pub mod Desk
mod Tests
mod Examples
