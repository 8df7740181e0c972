-- ===== src/Sweeps.antt =====
-- The sweeps of apps/api/src/iguanatrader/contexts/risk over open trades: one ratchets their stops,
-- one requests the close of a trade whose stop or target is hit.
pub mod Trailing
pub mod Stops
mod Tests
