-- ===== src/Store/Messages.antt =====
-- The messages of internal/store/store.go.
use livechat_server.Base.{
  ℕ, Bool, true, false, not, ◌&&◌, ◌||◌, List, [], ◌∷◌, ◌++◌, map, Text, text_eq, Option, none,
  some, if◌then◌else◌, keep_if, ltb, leb, ℤ, is_nonpos, to_nat,
}
use livechat_server.Strings.Sorting.{sort_by}
use livechat_server.Store.Models.{Uuid, Message}
use livechat_server.Store.Queries.{
  Call, Outcome, ok, failed, any, take, query, statement, inner_join,
}
use livechat_server.Store.Rows.{
  UserRow, MessageRow, Tables, same_message, has_user, has_room, or_null,
}

-- A message as CreateMessage scans it: with no name and avatar of the sender.
abbrev pub plain_message : MessageRow → Message
plain_message m = record {
  id = m.id;
  room_id = m.room_id;
  sender_id = m.sender_id;
  recipient_id = m.recipient_id;
  body = m.body;
  message_type = m.message_type;
  attachment_url = m.attachment_url;
  created_at = m.created_at;
  sender_name = [];
  sender_avatar = [];
}

-- A row of the join with `users`, as scanMessages scans it.
abbrev pub sent_message : MessageRow × UserRow → Message
sent_message (m, r) = record (plain_message m) {
  sender_name = r.user.username;
  sender_avatar = r.user.avatar_url;
}

-- `x = $1`, which NULL never meets, and `x is null`.
abbrev pub is_id : Uuid → Option Uuid → Bool
is_id id none = false
is_id id (some x) = text_eq x id

abbrev pub is_none : Option Uuid → Bool
is_none none = true
is_none (some x) = false

-- `if limit <= 0 { limit = 50 }`
abbrev pub page_size : ℤ → ℕ
page_size limit = if is_nonpos limit then 50 else to_nat limit

abbrev pub newer : MessageRow × UserRow → MessageRow × UserRow → Bool
newer a b = leb b.0.created_at a.0.created_at

-- The newest of the messages that a test picks, each with its sender.
unfoldable pub page : (MessageRow → Bool) → ℤ → Tables → List Message
page p limit t = map sent_message (
    take (page_size limit) (
      sort_by newer (
        keep_if (λ r. p r.0)
          (inner_join (λ m u. text_eq u.user.id m.sender_id) t.messages t.users))))

abbrev pub is_in_room : Uuid → ℕ → MessageRow → Bool
is_in_room room before m = is_id room m.room_id && ltb m.created_at before

abbrev pub is_between : Uuid → Uuid → ℕ → MessageRow → Bool
is_between a b before m =
    is_none m.room_id
    && ((text_eq m.sender_id a && is_id b m.recipient_id)
        || (text_eq m.sender_id b && is_id a m.recipient_id))
    && ltb m.created_at before

unfoldable pub insert_message : MessageRow → Tables → Tables × Outcome Message
insert_message row t =
    if any (same_message row) t.messages
      || not (has_user row.sender_id t)
      || not (or_null (λ id. has_user id t) row.recipient_id)
      || not (or_null (λ id. has_room id t) row.room_id)
    then (t, failed)
    else (record t { messages = t.messages ++ row ∷ [] }, ok (plain_message row))

module _ (k : Call) where
  unfoldable pub create_message :
      Option Uuid → Uuid → Option Uuid → Text → Text → Text → Tables → Tables × Outcome Message
  create_message room sender recipient body attachment_url message_type t =
      let row : MessageRow = record {
        id = k.id;
        room_id = room;
        sender_id = sender;
        recipient_id = recipient;
        body = body;
        attachment_url = attachment_url;
        message_type = message_type;
        created_at = k.now;
      } in
      statement k (insert_message row t) t

  unfoldable pub list_room_messages : Uuid → ℤ → ℕ → Tables → Outcome (List Message)
  list_room_messages room limit before t = query k (ok (page (is_in_room room before) limit t))

  unfoldable pub list_dms : Uuid → Uuid → ℤ → ℕ → Tables → Outcome (List Message)
  list_dms a b limit before t = query k (ok (page (is_between a b before) limit t))
