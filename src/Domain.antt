-- ===== src/Domain.antt =====
-- The data model: src/market_sentinel/domain. Enumerations, and the records that the components
-- exchange.
pub mod Enums
pub mod Records
pub use Enums.*
pub use Records.*
