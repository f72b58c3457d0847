-- ===== src/Catalog.antt =====
-- internal/catalog: how a refresh treats OpenRouter's servers.
pub mod Pacing
mod Tests
