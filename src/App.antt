-- ===== src/App.antt =====
-- internal/app: the refresh the server runs, and the questions that GET /api/models answers.
mod Tests
mod SearchTests
mod QueryTests
mod BackupTests
pub mod Refresh
pub mod Search
pub mod Closeness
pub mod Query
pub mod Similar
pub mod Backup
