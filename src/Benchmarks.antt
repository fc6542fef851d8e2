-- ===== src/Benchmarks.antt =====
-- The preregistered benchmarks: benchmarks/ and the classifications of research/indicators/states.py.
pub mod Contracts
pub mod Registry
pub mod Observations
pub mod States
pub mod Rules
mod Tests
