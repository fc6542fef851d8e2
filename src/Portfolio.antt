-- ===== src/Portfolio.antt =====
-- The reconciled portfolio: portfolio/.
pub mod Contracts
pub mod Fills
pub mod Observations
pub mod Marks
pub mod Projection
mod Tests
