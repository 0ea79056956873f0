-- ===== src/Working.antt =====
-- The worker and the server together.
pub mod Posts
pub mod Reaching
pub mod Delivering
pub mod Registering
pub mod Streaming
pub mod Completing
