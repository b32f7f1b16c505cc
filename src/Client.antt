-- ===== src/Client.antt =====
-- The client, `src/ngrok/client`.
pub mod Config
pub mod Model
