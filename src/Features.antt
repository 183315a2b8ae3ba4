-- ===== src/Features.antt =====
-- src/market_sentinel/features: what is computed from the recent snapshots of a symbol.
pub mod Bars
pub mod Rolling
pub mod Engine
pub mod Day
pub mod Isolation
pub mod DayRange
pub mod Order
pub mod Shape
