-- ===== src/Strategies.antt =====
-- The strategies of apps/api/src/iguanatrader/contexts/trading/strategies: the Donchian breakout with
-- its position size, behind the wrapper that hides the current bar.
pub mod Sizing
pub mod Donchian
mod Tests
