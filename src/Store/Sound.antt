-- ===== src/Store/Sound.antt =====
-- The constraints of db/migrations/001_init.sql, kept by every statement of internal/store/store.go.
use livechat_server.Base.{
  ℕ, ◌≡◌, refl, Bool, true, not, ◌&&◌, ◌||◌, List, [], ◌∷◌, ◌++◌, map, Text, Option, none, some,
  keep_if, arith, All, All-append, text_eq, text_eq_iff, Bool-cases, inl, inr,
}
use livechat_server.Store.Models.{Uuid, Room, RoomMember}
use livechat_server.Store.Queries.{any}
use livechat_server.Store.Rows.{
  UserRow, MessageRow, Tables, same_user, same_room, same_member, same_message, has_user, has_room,
  or_null,
}
use livechat_server.Store.Unique.{
  NoTwo, NoTwo-keep_if, NoTwo-append_one, NoTwo-map, All-keep_if, All-imp, any-append_one,
}
use livechat_server.Store.Users.{insert_user}
use livechat_server.Store.Rooms.{insert_room, insert_member, read_until}
use livechat_server.Store.Messages.{insert_message}

-- The references of a row have their rows.
abbrev pub HasOwners : Tables → RoomMember → Type 0
HasOwners t m = (has_room m.room_id t ≡ true) × (has_user m.user_id t ≡ true)

abbrev pub HasParties : Tables → MessageRow → Type 0
HasParties t m =
    (has_user m.sender_id t ≡ true)
    × (or_null (λ id. has_user id t) m.recipient_id ≡ true)
    × (or_null (λ id. has_room id t) m.room_id ≡ true)

-- Primary keys, UNIQUE columns and references.
pub record IsSound (t : Tables) : Type 0 where
  pub users_unique : NoTwo same_user t.users
  pub rooms_unique : NoTwo same_room t.rooms
  pub members_unique : NoTwo same_member t.members
  pub messages_unique : NoTwo same_message t.messages
  pub members_held : All (HasOwners t) t.members
  pub messages_held : All (HasParties t) t.messages

text_eq_comm : (a b : Text) → text_eq a b ≡ text_eq b a
text_eq_comm a b = ground (arith, text_eq_iff a b, text_eq_iff b a)

same_user_comm : (a b : UserRow) → same_user a b ≡ same_user b a
same_user_comm a b = ground (
  arith,
  text_eq_comm a.user.id b.user.id,
  text_eq_comm a.user.email b.user.email,
  text_eq_comm a.user.username b.user.username,
)

same_room_comm : (a b : Room) → same_room a b ≡ same_room b a
same_room_comm a b = ground (arith, text_eq_comm a.id b.id, text_eq_comm a.name b.name)

same_member_comm : (a b : RoomMember) → same_member a b ≡ same_member b a
same_member_comm a b =
    ground (arith, text_eq_comm a.room_id b.room_id, text_eq_comm a.user_id b.user_id)

same_message_comm : (a b : MessageRow) → same_message a b ≡ same_message b a
same_message_comm a b = text_eq_comm a.id b.id

-- More users and rooms break no reference.
module _ (t t' : Tables) (users : (id : Uuid) → has_user id t ≡ true → has_user id t' ≡ true)
    (rooms : (id : Uuid) → has_room id t ≡ true → has_room id t' ≡ true) where
  or_null_grows :
      (p q : Uuid → Bool) (o : Option Uuid)
      → ((id : Uuid) → p id ≡ true → q id ≡ true)
      → or_null p o ≡ true
      → or_null q o ≡ true
  or_null_grows p q none f h = refl
  or_null_grows p q (some id) f h = f id h

  HasOwners-grows : (l : List RoomMember) → All (HasOwners t) l → All (HasOwners t') l
  HasOwners-grows l =
      All-imp (HasOwners t) (HasOwners t') l (λ m h. (rooms m.room_id h.0, users m.user_id h.1))

  HasParties-grows : (l : List MessageRow) → All (HasParties t) l → All (HasParties t') l
  HasParties-grows l = All-imp (HasParties t) (HasParties t') l (λ m h. (
    users m.sender_id h.0,
    or_null_grows (λ id. has_user id t) (λ id. has_user id t') m.recipient_id users h.1,
    or_null_grows (λ id. has_room id t) (λ id. has_room id t') m.room_id rooms h.2,
  ))

pub insert_user-IsSound : (row : UserRow) (t : Tables) → IsSound t → IsSound (insert_user row t).0
unfolding insert_user
insert_user-IsSound row t s = elim (Bool-cases (any (same_user row) t.users)) [
  | inl e ↦ rw (e, insert_user) s
  | inr e ↦
      rw (e, insert_user)
        (record {
          users_unique = NoTwo-append_one same_user t.users row same_user_comm s.users_unique e;
          rooms_unique = s.rooms_unique;
          members_unique = s.members_unique;
          messages_unique = s.messages_unique;
          members_held = HasOwners-grows t grown users (λ id h. h) t.members s.members_held;
          messages_held = HasParties-grows t grown users (λ id h. h) t.messages s.messages_held;
        })
]
  where
    grown : Tables
    grown = record t { users = t.users ++ row ∷ [] }

    users : (id : Uuid) → has_user id t ≡ true → has_user id grown ≡ true
    users id = any-append_one (λ r. text_eq r.user.id id) t.users row

pub insert_room-IsSound : (row : Room) (t : Tables) → IsSound t → IsSound (insert_room row t).0
unfolding insert_room
insert_room-IsSound row t s = elim (Bool-cases (any (same_room row) t.rooms)) [
  | inl e ↦ rw (e, insert_room) s
  | inr e ↦
      rw (e, insert_room)
        (record {
          users_unique = s.users_unique;
          rooms_unique = NoTwo-append_one same_room t.rooms row same_room_comm s.rooms_unique e;
          members_unique = s.members_unique;
          messages_unique = s.messages_unique;
          members_held = HasOwners-grows t grown (λ id h. h) rooms t.members s.members_held;
          messages_held = HasParties-grows t grown (λ id h. h) rooms t.messages s.messages_held;
        })
]
  where
    grown : Tables
    grown = record t { rooms = t.rooms ++ row ∷ [] }

    rooms : (id : Uuid) → has_room id t ≡ true → has_room id grown ≡ true
    rooms id = any-append_one (λ r. text_eq r.id id) t.rooms row

pub insert_member-IsSound :
    (row : RoomMember) (t : Tables) → IsSound t → IsSound (insert_member row t).0
unfolding insert_member
insert_member-IsSound row t s = elim (Bool-cases (any (same_member row) t.members)) [
  | inl e ↦ rw (e, insert_member) s
  | inr e ↦ elim (Bool-cases (has_room row.room_id t && has_user row.user_id t)) [
    | inr f ↦ rw (e, f, insert_member) s
    | inl f ↦
        rw (e, f, insert_member)
          (record {
            users_unique = s.users_unique;
            rooms_unique = s.rooms_unique;
            members_unique =
                NoTwo-append_one same_member t.members row same_member_comm s.members_unique e;
            messages_unique = s.messages_unique;
            members_held =
                All-append (HasOwners t) t.members (row ∷ []) s.members_held
                  ((ground arith, ground arith), tt);
            messages_held = s.messages_held;
          })
  ]
]

-- The test of `insert_message`.
abbrev is_refused : MessageRow → Tables → Bool
is_refused row t =
    any (same_message row) t.messages
    || not (has_user row.sender_id t)
    || not (or_null (λ id. has_user id t) row.recipient_id)
    || not (or_null (λ id. has_room id t) row.room_id)

pub insert_message-IsSound :
    (row : MessageRow) (t : Tables) → IsSound t → IsSound (insert_message row t).0
unfolding insert_message
insert_message-IsSound row t s = elim (Bool-cases (is_refused row t)) [
  | inl e ↦ rw (e, insert_message) s
  | inr e ↦
      rw (e, insert_message)
        (record {
          users_unique = s.users_unique;
          rooms_unique = s.rooms_unique;
          members_unique = s.members_unique;
          messages_unique =
              NoTwo-append_one same_message t.messages row same_message_comm s.messages_unique
                (ground arith);
          members_held = s.members_held;
          messages_held =
              All-append (HasParties t) t.messages (row ∷ []) s.messages_held
                ((ground arith, ground arith, ground arith), tt);
        })
]

pub kept_members-IsSound :
    (p : RoomMember → Bool) (t : Tables)
    → IsSound t
    → IsSound (record t { members = keep_if p t.members })
kept_members-IsSound p t s = record {
  users_unique = s.users_unique;
  rooms_unique = s.rooms_unique;
  members_unique = NoTwo-keep_if same_member p t.members s.members_unique;
  messages_unique = s.messages_unique;
  members_held = All-keep_if (HasOwners t) p t.members s.members_held;
  messages_held = s.messages_held;
}

module _ (room user : Uuid) (at : ℕ) where
  read_until-keys :
      (a b : RoomMember)
      → same_member (read_until room user at a) (read_until room user at b) ≡ same_member a b
  read_until-keys a b = ground arith

  All-read_until :
      (t : Tables) (l : List RoomMember)
      → All (HasOwners t) l
      → All (HasOwners t) (map (read_until room user at) l)
  All-read_until t [] h = tt
  All-read_until t (m ∷ l) h = (ground arith, All-read_until t l h.1)

  pub read_members-IsSound :
      (t : Tables)
      → IsSound t
      → IsSound (record t { members = map (read_until room user at) t.members })
  read_members-IsSound t s = record {
    users_unique = s.users_unique;
    rooms_unique = s.rooms_unique;
    members_unique =
        NoTwo-map same_member (read_until room user at) t.members read_until-keys s.members_unique;
    messages_unique = s.messages_unique;
    members_held = All-read_until t t.members s.members_held;
    messages_held = s.messages_held;
  }
