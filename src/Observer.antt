-- ===== src/Observer.antt =====
-- observer: the observation of an account from outside, and its replay into episodes.
pub mod Texts
pub mod Contracts
pub mod Episodes
pub mod Booking
pub mod Deals
mod Tests
