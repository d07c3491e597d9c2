-- ===== src/Ws.antt =====
-- internal/ws: the hub, its connections, and what they exchange.
pub mod Messages
pub mod Sets
pub mod Hub
pub mod Conn
pub mod Histories
pub mod Database
pub mod Silence
