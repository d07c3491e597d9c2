-- ===== src/Ws/Database.antt =====
-- The store that internal/ws/conn.go calls, over the tables of internal/store. `calls` are what the
-- environment gives to the statements, one after the other, and `reads` to the queries in between.
pub mod Statements
pub mod Writing
pub mod Speaking
use livechat_server.Base.{ℕ, ◌+◌, Bool, Text, Option, none, some}
use livechat_server.Store.Models.{Uuid, Message}
use livechat_server.Store.Queries.{Call, Outcome, ok, not_found, failed}
use livechat_server.Store.Rows.{Tables}
use livechat_server.Store.Rooms.{
  add_room_member, remove_room_member, is_room_member, update_room_read_at,
}
use livechat_server.Store.Messages.{create_message}
use livechat_server.Ws.Conn.{Store}

pub record Database : Type 0 where
  pub tables : Tables
  -- how many statements were made
  pub made : ℕ

abbrev pub made_one : Database → Tables → Database
made_one db t = record { tables = t; made = db.made + 1 }

abbrev pub answer {ℓ} : {A : Type ℓ} → Outcome A → Option A
answer (ok a) = some a
answer not_found = none
answer failed = none

abbrev pub store_over : (ℕ → Call) → (ℕ → Call) → Store Database
store_over calls reads = record {
  add_room_member =
      λ room user role db. made_one db (add_room_member (calls db.made) room user role db.tables).0;
  remove_room_member =
      λ room user db. made_one db (remove_room_member (calls db.made) room user db.tables).0;
  is_room_member = λ room user db. answer (is_room_member (reads db.made) room user db.tables);
  create_message = λ room sender recipient body url kind db.
      let (t, o) = create_message (calls db.made) room sender recipient body url kind db.tables in
      (made_one db t, answer o);
  update_room_read_at =
      λ room user at db. made_one db (update_room_read_at (calls db.made) room user at db.tables).0;
}
