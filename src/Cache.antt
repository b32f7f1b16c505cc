-- ===== src/Cache.antt =====
-- The package `ngrok/cache`.
pub mod Lru
