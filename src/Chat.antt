-- ===== src/Chat.antt =====
-- The chat server over TCP, internal/chat.
pub mod Config
pub mod Util
pub mod Room
pub mod Client
pub mod Registry
pub mod Server
pub mod Commands
pub mod Session
pub mod Loops
