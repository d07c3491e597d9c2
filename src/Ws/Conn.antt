-- ===== src/Ws/Conn.antt =====
-- internal/ws/conn.go: what a connection does with an event that it read. `parse` is uuid.Parse, and
-- the store is an interface: a state of the database, and what the handlers call.
pub mod Keeps
pub mod Sound
pub mod Rooms
pub mod Messages
pub use livechat_server.Store.Models.{Message}
use livechat_server.Base.{
  ℕ, Bool, true, false, List, [], ◌∷◌, Text, Option, none, some, if◌then◌else◌, text_eq, keep_if,
  codes, not, ◌&&◌, update, is_nil,
}
use livechat_server.Strings.{Unicode, trim_space}
use livechat_server.Ws.Messages.{
  Uuid, Event, ClientEvent, MessagePayload, TypingPayload, RoomJoinPayload,
}
use livechat_server.Ws.Hub.{
  Hub, Conn, User, enqueue, subscribe_room, unsubscribe_room, broadcast_room, broadcast_user,
}

-- `c.rooms[room] = true` and `delete(c.rooms, room)`.
unfoldable pub add_room : Uuid → Conn → Conn
add_room room c = record c { rooms = room ∷ keep_if (λ r. not (text_eq r room)) c.rooms }

unfoldable pub drop_room : Uuid → Conn → Conn
drop_room room c = record c { rooms = keep_if (λ r. not (text_eq r room)) c.rooms }

unfoldable pub payload_of : User → Option Uuid → Option Uuid → Message → MessagePayload
payload_of user room recipient m = record {
  id = m.id;
  room_id = room;
  sender_id = user.id;
  sender_name = user.username;
  sender_avatar = user.avatar_url;
  recipient_id = recipient;
  body = m.body;
  attachment_url = m.attachment_url;
  message_type = m.message_type;
  created_at = m.created_at;
}

abbrev pub typing_event : ClientEvent → Option Uuid → Option Uuid → Uuid → Event
typing_event msg room recipient user =
    Event.typing (record {
      room_id = room;
      recipient_id = recipient;
      user_id = user;
      is_typing = msg.is_typing;
    })

-- The calls of internal/store, which end in the next state of the database. An error is `none` or is
-- ignored by the handlers.
pub record Store (Db : Type 0) : Type 0 where
  pub add_room_member : Uuid → Uuid → Text → Db → Db
  pub remove_room_member : Uuid → Uuid → Db → Db
  pub is_room_member : Uuid → Uuid → Db → Option Bool
  pub create_message :
      Option Uuid → Uuid → Option Uuid → Text → Text → Text → Db → Db × Option Message
  pub update_room_read_at : Uuid → Uuid → ℕ → Db → Db

pub record World (Db : Type 0) : Type 0 where
  pub hub : Hub
  pub db : Db

module _ {Db : Type 0} where
  abbrev pub on_hub : (Hub → Hub) → World Db → World Db
  on_hub f w = record w { hub = f w.hub }

  abbrev pub on_conn : ℕ → (Conn → Conn) → World Db → World Db
  on_conn c f = on_hub (λ h. record h { conn_at = update h.conn_at c (f (h.conn_at c)) })

  abbrev pub user_of : ℕ → World Db → User
  user_of c w = (w.hub.conn_at c).user

module _ {Db : Type 0} (store : Store Db) (parse : Text → Option Uuid) where
  unfoldable pub join_room : Text → ℕ → World Db → World Db
  join_room room_id c w = elim (parse room_id) [
    | none ↦ on_conn c (enqueue (Event.error (codes "invalid room"))) w
    | some room ↦
        on_conn c
          (λ x.
            enqueue (Event.room_joined (record { room_id = room; user_id = (user_of c w).id }))
              (add_room room x))
          (on_hub (subscribe_room room c)
            (record w { db = store.add_room_member room (user_of c w).id (codes "member") w.db }))
  ]

  unfoldable pub leave_room : Text → ℕ → World Db → World Db
  leave_room room_id c w = elim (parse room_id) [
    | none ↦ w
    | some room ↦ on_hub (unsubscribe_room room c) (
        on_conn c (drop_room room)
          (record w { db = store.remove_room_member room (user_of c w).id w.db }))
  ]

  -- `sendRoomMessage` after the call of CreateMessage.
  unfoldable pub announce_in_room : Uuid → ℕ → Db × Option Message → World Db → World Db
  announce_in_room room c (db, none) w = record w { db = db }
  announce_in_room room c (db, some m) w =
      on_hub
        (broadcast_room room (Event.message (payload_of (user_of c w) (some room) none m)) none)
        (record w { db = db })

  unfoldable pub post_in_room : Uuid → ClientEvent → Text → ℕ → World Db → World Db
  post_in_room room msg body c w =
      announce_in_room room c
        (store.create_message (some room) (user_of c w).id none body msg.attachment_url
          (codes "text") w.db)
        w

  -- `sendRoomMessage` after the call of IsRoomMember.
  unfoldable pub send_if_member : Option Bool → Uuid → ClientEvent → Text → ℕ → World Db → World Db
  send_if_member (some true) room msg body c w = post_in_room room msg body c w
  send_if_member (some false) room msg body c w =
      on_conn c (enqueue (Event.error (codes "not a member"))) w
  send_if_member none room msg body c w = on_conn c (enqueue (Event.error (codes "not a member"))) w

  unfoldable pub send_room_message : ClientEvent → Text → ℕ → World Db → World Db
  send_room_message msg body c w = elim (parse msg.room_id) [
    | none ↦ w
    | some room ↦ send_if_member (store.is_room_member room (user_of c w).id w.db) room msg body c w
  ]

  unfoldable pub announce_to_both : Uuid → ℕ → Db × Option Message → World Db → World Db
  announce_to_both recipient c (db, none) w = record w { db = db }
  announce_to_both recipient c (db, some m) w =
      let event = Event.message (payload_of (user_of c w) none (some recipient) m) in
      on_hub (broadcast_user (user_of c w).id event none)
        (on_hub (broadcast_user recipient event none) (record w { db = db }))

  unfoldable pub send_dm_message : ClientEvent → Text → ℕ → World Db → World Db
  send_dm_message msg body c w = elim (parse msg.recipient_id) [
    | none ↦ w
    | some recipient ↦
        announce_to_both recipient c
          (store.create_message none (user_of c w).id (some recipient) body msg.attachment_url
            (codes "text") w.db)
          w
  ]

  unfoldable pub handle_message : ⦃u : Unicode⦄ → ClientEvent → ℕ → World Db → World Db
  handle_message msg c w =
      let body = trim_space msg.body in
      if is_nil body && is_nil msg.attachment_url
      then w
      else if not (is_nil msg.room_id)
      then send_room_message msg body c w
      else if not (is_nil msg.recipient_id)
      then send_dm_message msg body c w
      else w

  unfoldable pub handle_typing : ClientEvent → ℕ → World Db → World Db
  handle_typing msg c w =
      if not (is_nil msg.room_id)
      then elim (parse msg.room_id) [
        | none ↦ w
        | some room ↦
            on_hub
              (broadcast_room room (typing_event msg (some room) none (user_of c w).id) (some c)) w
      ]
      else if not (is_nil msg.recipient_id)
      then elim (parse msg.recipient_id) [
        | none ↦ w
        | some user ↦
            on_hub
              (broadcast_user user (typing_event msg none (some user) (user_of c w).id) (some c)) w
      ]
      else w

  unfoldable pub handle_read : ℕ → ClientEvent → ℕ → World Db → World Db
  handle_read now msg c w = if is_nil msg.room_id then w else elim (parse msg.room_id) [
    | none ↦ w
    | some room ↦ record w { db = store.update_room_read_at room (user_of c w).id now w.db }
  ]

  unfoldable pub handle_client_event : ⦃u : Unicode⦄ → ℕ → ClientEvent → ℕ → World Db → World Db
  handle_client_event now msg c w =
      if text_eq msg.event_type (codes "join_room")
      then join_room msg.room_id c w
      else if text_eq msg.event_type (codes "leave_room")
      then leave_room msg.room_id c w
      else if text_eq msg.event_type (codes "message")
      then handle_message msg c w
      else if text_eq msg.event_type (codes "typing")
      then handle_typing msg c w
      else if text_eq msg.event_type (codes "read")
      then handle_read now msg c w
      else w
