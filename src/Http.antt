-- ===== src/Http.antt =====
-- internal/http and internal/auth: requests, the token, the handlers and the routes.
pub mod Types
pub mod Token
pub mod Users
pub mod Rooms
pub mod Messages
pub mod Uploads
pub mod Sockets
pub mod Router
