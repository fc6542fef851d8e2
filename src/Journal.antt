-- ===== src/Journal.antt =====
-- journal and persistence: the operational journal of an account, its chain and its storage.
pub mod Contracts
pub mod Postgres
mod Tests
