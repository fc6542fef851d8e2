-- ===== src/Risk.antt =====
-- The admission of orders: risk/.
pub mod Contracts
pub mod Lots
pub mod State
pub mod Sizing
pub mod Engine
mod Tests
