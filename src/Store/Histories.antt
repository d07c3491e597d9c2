-- ===== src/Store/Histories.antt =====
-- Histories of the statements of internal/store/store.go that change the tables.
use livechat_server.Base.{ℕ, Bool, false, List, [], ◌∷◌, Text, Option, codes, Bool-cases, inl, inr}
use livechat_server.Store.Models.{Uuid, Room}
use livechat_server.Store.Queries.{Call, Outcome, ok, not_found, failed, Dialect, statement}
use livechat_server.Store.Rows.{Tables}
use livechat_server.Store.Users.{create_user}
use livechat_server.Store.Rooms.{
  create_room, add_room_member, remove_room_member, update_room_read_at, ensure_default_room,
  seed_unless_found, after_insert,
}
use livechat_server.Store.Messages.{create_message}
use livechat_server.Store.Sound.{
  IsSound, insert_user-IsSound, insert_room-IsSound, insert_member-IsSound, insert_message-IsSound,
  kept_members-IsSound, read_members-IsSound,
}

-- A call of a method that changes the tables, with its arguments.
pub data Change : Type 0 where
  new_user : Text → Text → Text → Text → Change
  new_room : Text → Bool → Uuid → Change
  default_room : Call → Call → Uuid → Dialect → Change
  new_member : Uuid → Uuid → Text → Change
  no_member : Uuid → Uuid → Change
  read_at : Uuid → Uuid → ℕ → Change
  new_message : Option Uuid → Uuid → Option Uuid → Text → Text → Text → Change

unfoldable pub apply : Call → Change → Tables → Tables
apply k (new_user email name hash avatar) t = (create_user k email name hash avatar t).0
apply k (new_room name is_private by) t = (create_room k name is_private by t).0
apply k (default_room insert_call get_call creator d) t =
    (ensure_default_room k insert_call get_call creator d t).0
apply k (new_member room user role) t = (add_room_member k room user role t).0
apply k (no_member room user) t = (remove_room_member k room user t).0
apply k (read_at room user at) t = (update_room_read_at k room user at t).0
apply k (new_message room sender recipient body url kind) t =
    (create_message k room sender recipient body url kind t).0

unfoldable pub apply_all : List (Call × Change) → Tables → Tables
apply_all [] t = t
apply_all ((k, c) ∷ cs) t = apply_all cs (apply k c t)

abbrev pub no_rows : Tables
no_rows = record { users = []; rooms = []; members = []; messages = [] }

statement-IsSound :
    {A : Type 0} (k : Call) (done : Tables × Outcome A) (t : Tables)
    → IsSound t
    → IsSound done.0
    → IsSound (statement k done t).0
unfolding statement
statement-IsSound k (t', o) t s s' = elim (Bool-cases k.reached) [
  | inl e ↦ rw e s'
  | inr e ↦ rw e s
]

create_room-IsSound :
    (k : Call) (name : Text) (is_private : Bool) (by : Uuid) (t : Tables)
    → IsSound t
    → IsSound (create_room k name is_private by t).0
unfolding create_room
create_room-IsSound k name is_private by t s = statement-IsSound k _ t s (insert_room-IsSound _ t s)

after_insert-IsSound :
    (k : Call) (id : Uuid) (done : Tables × Outcome Room)
    → IsSound done.0
    → IsSound (after_insert k id done).0
unfolding after_insert
after_insert-IsSound k id (t, ok room) s = s
after_insert-IsSound k id (t, not_found) s = s
after_insert-IsSound k id (t, failed) s = s

seed_unless_found-IsSound :
    (insert_call get_call : Call) (creator : Uuid) (o : Outcome Room) (t : Tables)
    → IsSound t
    → IsSound (seed_unless_found insert_call get_call creator o t).0
unfolding seed_unless_found
seed_unless_found-IsSound insert_call get_call creator (ok room) t s = s
seed_unless_found-IsSound insert_call get_call creator not_found t s =
    after_insert-IsSound get_call insert_call.id
      (create_room insert_call (codes "general") false creator t)
      (create_room-IsSound insert_call (codes "general") false creator t s)
seed_unless_found-IsSound insert_call get_call creator failed t s = s

pub apply-IsSound : (k : Call) (c : Change) (t : Tables) → IsSound t → IsSound (apply k c t)
unfolding apply create_user add_room_member remove_room_member update_room_read_at create_message
    ensure_default_room
apply-IsSound k (new_user email name hash avatar) t s =
    statement-IsSound k _ t s (insert_user-IsSound _ t s)
apply-IsSound k (new_room name is_private by) t s = create_room-IsSound k name is_private by t s
apply-IsSound k (default_room insert_call get_call creator d) t s =
    seed_unless_found-IsSound insert_call get_call creator _ t s
apply-IsSound k (new_member room user role) t s =
    statement-IsSound k _ t s (insert_member-IsSound _ t s)
apply-IsSound k (no_member room user) t s = statement-IsSound k _ t s (kept_members-IsSound _ t s)
apply-IsSound k (read_at room user at) t s =
    statement-IsSound k _ t s (read_members-IsSound room user at t s)
apply-IsSound k (new_message room sender recipient body url kind) t s =
    statement-IsSound k _ t s (insert_message-IsSound _ t s)

apply_all-IsSound : (cs : List (Call × Change)) (t : Tables) → IsSound t → IsSound (apply_all cs t)
unfolding apply_all
apply_all-IsSound [] t s = s
apply_all-IsSound ((k, c) ∷ cs) t s = apply_all-IsSound cs (apply k c t) (apply-IsSound k c t s)

-- After every history of calls from empty tables, lost answers included, no two rows share a key and
-- every reference has its row.
pub history-IsSound : (cs : List (Call × Change)) → IsSound (apply_all cs no_rows)
history-IsSound cs = apply_all-IsSound cs no_rows (record {
  users_unique = tt;
  rooms_unique = tt;
  members_unique = tt;
  messages_unique = tt;
  members_held = tt;
  messages_held = tt;
})
