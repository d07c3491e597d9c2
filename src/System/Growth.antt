-- ===== src/System/Growth.antt =====
-- What the server's tables never lose.
use mathlib.Core.List.{append-nil, append_assoc}
use livechat_server.Base.{
  ℕ, ◌≡◌, refl, sym, ap, ◌∙◌, Bool, false, List, [], ◌∷◌, ◌++◌, Text, Option, StrMap, arith, codes,
  Bool-cases, inl, inr,
}
use livechat_server.Strings.{Unicode}
use livechat_server.Config.{Config}
use livechat_server.Store.Models.{Uuid, Room, RoomMember}
use livechat_server.Store.Queries.{Call, Dialect, Outcome, ok, not_found, failed, statement, any}
use livechat_server.Store.Rows.{Tables, UserRow, MessageRow, same_user, same_room}
use livechat_server.Store.Users.{create_user, insert_user}
use livechat_server.Store.Rooms.{
  create_room, insert_room, add_room_member, insert_member, remove_room_member, update_room_read_at,
  ensure_default_room, seed_unless_found, after_insert,
}
use livechat_server.Store.Messages.{create_message, insert_message}
use livechat_server.Store.Histories.{Change, apply}
use livechat_server.Http.Types.{Packages}
use livechat_server.Ws.Hub.{Conn}
use livechat_server.System.{Input, start, run}
use livechat_server.System.Keeps.{IsLasting}
use livechat_server.System.Histories.{run_keeps, start_keeps}

-- One list begins with another.
abbrev pub Extends : {A : Type 0} → List A → List A → Type 0
Extends l l' = (new : List _) × (l' ≡ l ++ new)

Extends-same : {A : Type 0} (l : List A) → Extends l l
Extends-same l = ([], sym (append-nil l))

Extends-twice : {A : Type 0} (l l' l'' : List A) → Extends l l' → Extends l' l'' → Extends l l''
Extends-twice l l' l'' (a, e) (b, f) = (a ++ b, f ∙ (ap (λ x. x ++ b) e ∙ append_assoc l a b))

-- No user, no room and no message is lost or changed.
pub record HasGrown (t t' : Tables) : Type 0 where
  pub users : Extends t.users t'.users
  pub rooms : Extends t.rooms t'.rooms
  pub messages : Extends t.messages t'.messages

pub HasGrown-same : (t : Tables) → HasGrown t t
HasGrown-same t = record {
  users = Extends-same t.users;
  rooms = Extends-same t.rooms;
  messages = Extends-same t.messages;
}

HasGrown-twice : (t t' t'' : Tables) → HasGrown t t' → HasGrown t' t'' → HasGrown t t''
HasGrown-twice t t' t'' a b = record {
  users = Extends-twice t.users t'.users t''.users a.users b.users;
  rooms = Extends-twice t.rooms t'.rooms t''.rooms a.rooms b.rooms;
  messages = Extends-twice t.messages t'.messages t''.messages a.messages b.messages;
}

-- Only the members have changed.
HasGrown-members : (l : List RoomMember) (t : Tables) → HasGrown t (record t { members = l })
HasGrown-members l t = record {
  users = Extends-same t.users;
  rooms = Extends-same t.rooms;
  messages = Extends-same t.messages;
}

statement-HasGrown :
    {A : Type 0} (k : Call) (done : Tables × Outcome A) (t : Tables)
    → HasGrown t done.0
    → HasGrown t (statement k done t).0
unfolding statement
statement-HasGrown k (t', o) t g = elim (Bool-cases k.reached) [
  | inl e ↦ rw e g
  | inr e ↦ rw e (HasGrown-same t)
]

insert_user-HasGrown : (row : UserRow) (t : Tables) → HasGrown t (insert_user row t).0
unfolding insert_user
insert_user-HasGrown row t = elim (Bool-cases (any (same_user row) t.users)) [
  | inl e ↦ rw (e, insert_user) (HasGrown-same t)
  | inr e ↦
      rw (e, insert_user)
        (record {
          users = (row ∷ [], refl);
          rooms = Extends-same t.rooms;
          messages = Extends-same t.messages;
        })
]

insert_room-HasGrown : (row : Room) (t : Tables) → HasGrown t (insert_room row t).0
unfolding insert_room
insert_room-HasGrown row t = elim (Bool-cases (any (same_room row) t.rooms)) [
  | inl e ↦ rw (e, insert_room) (HasGrown-same t)
  | inr e ↦
      rw (e, insert_room)
        (record {
          users = Extends-same t.users;
          rooms = (row ∷ [], refl);
          messages = Extends-same t.messages;
        })
]

insert_member-HasGrown : (row : RoomMember) (t : Tables) → HasGrown t (insert_member row t).0
unfolding insert_member
insert_member-HasGrown row t =
    ground (arith, HasGrown-same t, HasGrown-members (t.members ++ row ∷ []) t)

insert_message-HasGrown : (row : MessageRow) (t : Tables) → HasGrown t (insert_message row t).0
unfolding insert_message
insert_message-HasGrown row t = ground (arith, HasGrown-same t, grown)
  where
    grown : HasGrown t (record t { messages = t.messages ++ row ∷ [] })
    grown = record {
      users = Extends-same t.users;
      rooms = Extends-same t.rooms;
      messages = (row ∷ [], refl);
    }

after_insert-tables :
    (k : Call) (id : Uuid) (done : Tables × Outcome Room) → (after_insert k id done).0 ≡ done.0
unfolding after_insert
after_insert-tables k id (t, ok room) = refl
after_insert-tables k id (t, not_found) = refl
after_insert-tables k id (t, failed) = refl

create_room-HasGrown :
    (k : Call) (name : Text) (is_private : Bool) (by : Uuid) (t : Tables)
    → HasGrown t (create_room k name is_private by t).0
unfolding create_room
create_room-HasGrown k name is_private by t = statement-HasGrown k _ t (insert_room-HasGrown _ t)

seed_unless_found-HasGrown :
    (insert_call get_call : Call) (creator : Uuid) (o : Outcome Room) (t : Tables)
    → HasGrown t (seed_unless_found insert_call get_call creator o t).0
unfolding seed_unless_found
seed_unless_found-HasGrown insert_call get_call creator (ok room) t = HasGrown-same t
seed_unless_found-HasGrown insert_call get_call creator not_found t =
    rw
      (after_insert-tables get_call insert_call.id
        (create_room insert_call (codes "general") false creator t))
      (create_room-HasGrown insert_call (codes "general") false creator t)
seed_unless_found-HasGrown insert_call get_call creator failed t = HasGrown-same t

apply-HasGrown : (k : Call) (c : Change) (t : Tables) → HasGrown t (apply k c t)
unfolding apply create_user add_room_member remove_room_member update_room_read_at create_message
    ensure_default_room
apply-HasGrown k (Change.new_user email name hash avatar) t =
    statement-HasGrown k _ t (insert_user-HasGrown _ t)
apply-HasGrown k (Change.new_room name is_private by) t =
    create_room-HasGrown k name is_private by t
apply-HasGrown k (Change.default_room insert_call get_call creator d) t =
    seed_unless_found-HasGrown insert_call get_call creator _ t
apply-HasGrown k (Change.new_member room user role) t =
    statement-HasGrown k _ t (insert_member-HasGrown _ t)
apply-HasGrown k (Change.no_member room user) t = statement-HasGrown k _ t (HasGrown-members _ t)
apply-HasGrown k (Change.read_at room user at) t = statement-HasGrown k _ t (HasGrown-members _ t)
apply-HasGrown k (Change.new_message room sender recipient body url kind) t =
    statement-HasGrown k _ t (insert_message-HasGrown _ t)

pub HasGrown-IsLasting : (t : Tables) → IsLasting (HasGrown t)
HasGrown-IsLasting t k c t' g = HasGrown-twice t t' (apply k c t') g (apply-HasGrown k c t')

-- Whatever requests, sockets and rounds of the loops come, in any order and with any errors of the
-- database, the tables of users, rooms and messages begin with the rows of before, unchanged.
pub tables-HasGrown :
    ⦃u : Unicode⦄
    → (cfg : Config) (p : Packages) (d : Dialect) (match : Text → Text → Option (StrMap Text))
      (calls reads : ℕ → Call) (find_call insert_call get_call : Call) (creator : Uuid)
      (conns : ℕ → Conn) (t : Tables) (inputs : List Input)
    → HasGrown t
        (run cfg p d match calls reads inputs
          (start d find_call insert_call get_call creator conns t)).db.tables
tables-HasGrown cfg p d match calls reads find_call insert_call get_call creator conns t inputs =
    run_keeps cfg p d match calls reads (HasGrown t) (HasGrown-IsLasting t) inputs _ (
      start_keeps cfg p d match calls reads (HasGrown t) (HasGrown-IsLasting t) find_call
        insert_call get_call creator conns t (HasGrown-same t))
