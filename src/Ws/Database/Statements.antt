-- ===== src/Ws/Database/Statements.antt =====
-- What a statement of internal/store answers once it is made and answered.
use livechat_server.Base.{
  ℕ, ◌≡◌, true, false, ap, [], ◌∷◌, ◌++◌, Text, none, some, arith, text_eq, text_eq_iff, Bool-cases,
  inl, inr,
}
use livechat_server.Store.Models.{Uuid, RoomMember}
use livechat_server.Store.Queries.{Call, ok, query, statement, any}
use livechat_server.Store.Rows.{Tables, MessageRow, is_member_row, same_member, has_user, has_room}
use livechat_server.Store.Unique.{any_imp, any-append}
use livechat_server.Store.Rooms.{add_room_member, insert_member, is_room_member}
use livechat_server.Store.Messages.{create_message, insert_message, plain_message}
use livechat_server.Ws.Database.{answer}

-- Every statement or query is made and answered.
abbrev pub AreUp : (ℕ → Call) → Type 0
AreUp calls = (n : ℕ) → ((calls n).reached ≡ true) × ((calls n).answered ≡ true)

-- Who is added is a member.
pub add_room_member-any :
    (k : Call) (room user : Uuid) (role : Text) (t : Tables)
    → k.reached ≡ true
    → has_room room t ≡ true
    → has_user user t ≡ true
    → any (is_member_row room user) (add_room_member k room user role t).0.members ≡ true
unfolding add_room_member statement insert_member
add_room_member-any k room user role t up r w =
    elim (Bool-cases (any (same_member row) t.members)) [
      | inl e ↦ elim (Bool-cases (any (is_member_row room user) t.members)) [
        | inl f ↦ ground arith
        | inr f ↦
            absurd
              (ground (arith, any_imp (same_member row) (is_member_row room user) t.members same f))
      ]
      | inr e ↦ ground (
        arith,
        any-append (is_member_row room user) t.members (row ∷ []),
        text_eq_iff room room,
        text_eq_iff user user,
        last,
      )
    ]
  where
    row : RoomMember
    row = record {
      room_id = room;
      user_id = user;
      role = role;
      joined_at = k.now;
      last_read_at = k.now;
    }

    same : (m : RoomMember) → same_member row m ≡ true → is_member_row room user m ≡ true
    same m e = ground (
      arith,
      text_eq_iff room m.room_id,
      text_eq_iff user m.user_id,
      text_eq_iff m.room_id room,
      text_eq_iff m.user_id user,
    )

    last : any (is_member_row room user) (row ∷ []) ≡ true
    last = unfold any in ground (arith, text_eq_iff room room, text_eq_iff user user)

pub users-add_room_member :
    (k : Call) (room user : Uuid) (role : Text) (t : Tables)
    → ((add_room_member k room user role t).0.users ≡ t.users)
      × ((add_room_member k room user role t).0.rooms ≡ t.rooms)
      × ((add_room_member k room user role t).0.messages ≡ t.messages)
unfolding add_room_member statement insert_member
users-add_room_member k room user role t = ground arith

-- The row of a message in a room.
abbrev pub message_row : Call → Uuid → Uuid → Text → Text → Text → MessageRow
message_row k room sender body url kind = record {
  id = k.id;
  room_id = some room;
  sender_id = sender;
  recipient_id = none;
  body = body;
  attachment_url = url;
  message_type = kind;
  created_at = k.now;
}

-- A row that the constraints admit is stored and answered.
pub create_message-ok :
    (k : Call) (room sender : Uuid) (body url kind : Text) (t : Tables)
    → k.reached ≡ true
    → k.answered ≡ true
    → any (λ m. text_eq k.id m.id) t.messages ≡ false
    → has_room room t ≡ true
    → has_user sender t ≡ true
    → (create_message k (some room) sender none body url kind t).1
      ≡ ok (plain_message (message_row k room sender body url kind))
unfolding create_message statement insert_message
create_message-ok k room sender body url kind t up back fresh r w = ground arith

pub messages-create_message :
    (k : Call) (room sender : Uuid) (body url kind : Text) (t : Tables)
    → k.reached ≡ true
    → any (λ m. text_eq k.id m.id) t.messages ≡ false
    → has_room room t ≡ true
    → has_user sender t ≡ true
    → (create_message k (some room) sender none body url kind t).0.messages
      ≡ t.messages ++ message_row k room sender body url kind ∷ []
unfolding create_message statement insert_message
messages-create_message k room sender body url kind t up fresh r w = ground arith

pub is_room_member-ok :
    (k : Call) (room user : Uuid) (t : Tables)
    → k.reached ≡ true
    → k.answered ≡ true
    → any (is_member_row room user) t.members ≡ true
    → answer (is_room_member k room user t) ≡ some true
unfolding is_room_member query
is_room_member-ok k room user t up back h = rw (up, back, h)

pub with_second : {A B : Type 0} (p : A × B) (b : B) → p.1 ≡ b → p ≡ (p.0, b)
with_second p b h = ap (λ x. (p.0, x)) h
