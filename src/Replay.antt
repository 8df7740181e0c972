-- ===== src/Replay.antt =====
-- The replay context (apps/api/src/iguanatrader/contexts/replay): the P&L simulator.
pub mod Simulator
mod Tests
