-- ===== src/Accounting.antt =====
-- The cash ledger of an account: accounting/.
pub mod Contracts
pub mod Ledger
pub mod Balance
pub mod Performance
mod Tests
