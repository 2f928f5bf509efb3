-- ===== src/Mirror.antt =====
-- The two ends together: what a host's client shows of what a phone's session sends.
pub mod Shown
pub mod Fake
mod Tests
