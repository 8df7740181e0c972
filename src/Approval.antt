-- ===== src/Approval.antt =====
-- The approval context (apps/api/src/iguanatrader/contexts/approval): requests and decisions in
-- their tables, the service that records decisions and sweeps expired requests, and the bridges
-- from its events to the trading context.
pub mod Store
pub mod Service
pub mod Bridge
pub mod Once
pub mod Commands
pub mod Decide
pub mod Sweep
pub mod Pending
mod Tests
mod CommandTests
