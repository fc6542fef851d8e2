-- ===== src/Features.antt =====
-- features: the data of research on features.
pub mod Splits
mod Tests
