-- ===== src/SelfUpdate.antt =====
-- internal/selfupdate
pub mod Sums
mod Tests
