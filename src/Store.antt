-- ===== src/Store.antt =====
-- internal/store: the records, and the queries over the tables of db/migrations/001_init.sql.
pub mod Models
pub mod Queries
pub mod Rows
pub mod Unique
pub mod Users
pub mod Rooms
pub mod Messages
pub mod Sound
pub mod Histories
pub mod Pages
pub mod Visibility
