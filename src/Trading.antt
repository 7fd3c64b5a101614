-- ===== src/Trading.antt =====
-- The trading worker: src/trading/.
pub mod Coalescing
pub mod Pricing
pub mod Router
pub mod Candles
pub mod News
pub mod Fx
pub mod Engine
