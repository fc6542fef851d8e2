-- ===== src/Workbench.antt =====
-- workbench: the projects of candidates and their readiness.
pub mod Contracts
pub mod Projects
pub mod Readiness
mod Tests
