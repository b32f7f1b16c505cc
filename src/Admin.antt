-- ===== src/Admin.antt =====
-- The administration server, `src/ngrok/admin/main.go`.
pub mod Config
pub mod Env
pub mod Names
pub mod CertArgs
pub mod Domains
pub mod Sessions
pub mod Pages
pub mod Checks
