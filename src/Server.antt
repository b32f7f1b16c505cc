-- ===== src/Server.antt =====
-- The package `ngrok/server`.
pub mod Names
pub mod Vhosts
pub mod Registry
pub mod Tunnel
pub mod Controls
pub mod Slots
pub mod Proxies
pub mod Http
pub mod Tls
pub mod Control
