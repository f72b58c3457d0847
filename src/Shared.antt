-- ===== src/Shared.antt =====
-- internal/shared: reading figures.
pub mod Number
