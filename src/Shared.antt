-- ===== src/Shared.antt =====
-- The shared kernel (apps/api/src/iguanatrader/shared): the message bus.
pub mod Bus
mod Tests
