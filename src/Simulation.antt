-- ===== src/Simulation.antt =====
-- The exploratory bar simulation: simulation/.
pub mod Contracts
pub mod Fills
pub mod Execution
pub mod Events
pub mod Lifecycle
mod Tests
