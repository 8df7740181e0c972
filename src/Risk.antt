-- ===== src/Risk.antt =====
-- The risk context (apps/api/src/iguanatrader/contexts/risk): value objects, the seven
-- protections and the engine that composes them, trailing stops, and the kill-switch.
pub mod Models
pub mod Protections
pub mod Engine
pub mod Trailing
pub mod KillSwitch
pub mod State
pub mod Service
pub mod Override
pub mod Bridge
mod Tests
mod Examples
