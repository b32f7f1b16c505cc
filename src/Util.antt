-- ===== src/Util.antt =====
-- The helpers of `src/ngrok/util`.
pub mod Ring
pub mod Shutdown
pub mod Broadcast
pub mod Ids
