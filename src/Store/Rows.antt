-- ===== src/Store/Rows.antt =====
-- The tables of db/migrations/001_init.sql, and what their keys and references ask for.
use livechat_server.Base.{ℕ, Bool, true, ◌&&◌, ◌||◌, List, Text, text_eq, Option, none, some}
use livechat_server.Store.Models.{Uuid, User, Room, RoomMember}
use livechat_server.Store.Queries.{any}

-- The table `users`; nothing reads its column updated_at.
pub record UserRow : Type 0 where
  pub user : User
  pub password_hash : Text

-- The table `messages`.
pub record MessageRow : Type 0 where
  pub id : Uuid
  pub room_id : Option Uuid
  pub sender_id : Uuid
  pub recipient_id : Option Uuid
  pub body : Text
  pub attachment_url : Text
  pub message_type : Text
  pub created_at : ℕ

pub record Tables : Type 0 where
  pub users : List UserRow
  pub rooms : List Room
  pub members : List RoomMember
  pub messages : List MessageRow

-- The keys of the tables: what two rows may not share.
abbrev pub same_user : UserRow → UserRow → Bool
same_user a b =
    text_eq a.user.id b.user.id
    || text_eq a.user.email b.user.email
    || text_eq a.user.username b.user.username

abbrev pub same_room : Room → Room → Bool
same_room a b = text_eq a.id b.id || text_eq a.name b.name

abbrev pub is_member_row : Uuid → Uuid → RoomMember → Bool
is_member_row room user m = text_eq m.room_id room && text_eq m.user_id user

abbrev pub same_member : RoomMember → RoomMember → Bool
same_member a b = is_member_row b.room_id b.user_id a

abbrev pub same_message : MessageRow → MessageRow → Bool
same_message a b = text_eq a.id b.id

abbrev pub has_user : Uuid → Tables → Bool
has_user id t = any (λ r. text_eq r.user.id id) t.users

abbrev pub has_room : Uuid → Tables → Bool
has_room id t = any (λ r. text_eq r.id id) t.rooms

-- A reference that may be NULL.
abbrev pub or_null : (Uuid → Bool) → Option Uuid → Bool
or_null p none = true
or_null p (some id) = p id
