-- ===== src/Store/Models.antt =====
-- internal/store/models.go. A uuid.UUID is the list of its 16 bytes, and an instant is a number.
use livechat_server.Base.{ℕ, Bool, Text, Option}

abbrev pub Uuid : Type 0
Uuid = Text

pub record User : Type 0 where
  pub id : Uuid
  pub email : Text
  pub username : Text
  pub avatar_url : Text
  pub created_at : ℕ

pub record Room : Type 0 where
  pub id : Uuid
  pub name : Text
  pub is_private : Bool
  pub created_by : Uuid
  pub created_at : ℕ

pub record Message : Type 0 where
  pub id : Uuid
  pub room_id : Option Uuid
  pub sender_id : Uuid
  pub recipient_id : Option Uuid
  pub body : Text
  pub message_type : Text
  pub attachment_url : Text
  pub created_at : ℕ
  pub sender_name : Text
  pub sender_avatar : Text

pub record RoomMember : Type 0 where
  pub room_id : Uuid
  pub user_id : Uuid
  pub role : Text
  pub joined_at : ℕ
  pub last_read_at : ℕ
