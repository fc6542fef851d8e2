-- ===== src/Campaigns.antt =====
-- campaigns: the qualification campaigns of experts.
pub mod Journal
mod Tests
