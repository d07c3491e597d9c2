-- ===== src/Ws/Messages.antt =====
-- internal/ws/messages.go: what a connection receives and sends. A uuid.UUID is the list of its 16
-- bytes, and an instant is a number.
pub use livechat_server.Store.Models.{Uuid}
use livechat_server.Base.{ℕ, Bool, Text, Option}

pub record ClientEvent : Type 0 where
  pub event_type : Text
  pub room_id : Text
  pub recipient_id : Text
  pub body : Text
  pub attachment_url : Text
  pub is_typing : Bool

pub record MessagePayload : Type 0 where
  pub id : Uuid
  pub room_id : Option Uuid
  pub sender_id : Uuid
  pub sender_name : Text
  pub sender_avatar : Text
  pub recipient_id : Option Uuid
  pub body : Text
  pub attachment_url : Text
  pub message_type : Text
  pub created_at : ℕ

pub record PresencePayload : Type 0 where
  pub user_id : Uuid
  pub online : Bool
  pub last_seen : ℕ

pub record TypingPayload : Type 0 where
  pub room_id : Option Uuid
  pub recipient_id : Option Uuid
  pub user_id : Uuid
  pub is_typing : Bool

pub record RoomJoinPayload : Type 0 where
  pub room_id : Uuid
  pub user_id : Uuid

-- `Event`: its type, "message", "presence", "typing", "room_joined" or "error", with its data; an
-- error's data is the map with its text under "message".
pub data Event : Type 0 where
  message : MessagePayload → Event
  presence : PresencePayload → Event
  typing : TypingPayload → Event
  room_joined : RoomJoinPayload → Event
  error : Text → Event
