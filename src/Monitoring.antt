-- ===== src/Monitoring.antt =====
-- monitoring: the contracts of telemetry events, the append-only journal of a stream and the read
-- models that are derived from it.
pub mod Contracts
pub mod ReadModels
pub mod Projections
pub mod Tables
pub mod Journal
mod Tests
