-- ===== src/Ws/Hub.antt =====
-- internal/ws/hub.go, and what conn.go keeps of a connection. A connection is an address of the
-- heap. The queue stands for the channel `broadcast`, with the senders that wait while it is full.
pub mod Sound
pub mod Delivery
pub mod Presence
pub use livechat_server.Store.Models.{User}
use livechat_server.Base.{
  ℕ, Bool, true, false, List, [], ◌∷◌, ◌++◌, Text, Option, none, some, keep_if, if◌then◌else◌,
  length, ltb, not, ◌==◌, Heap, update, is_nil, lookup, contains,
}
use livechat_server.Ws.Messages.{Uuid, Event, PresencePayload}
use livechat_server.Ws.Sets.{
  Table, add_under, remove_under, remove_everywhere, set_of, mark, unmark,
}

pub record Conn : Type 0 where
  pub user : User
  -- what waits in the channel `send`
  pub send : List Event
  -- the keys of `rooms`
  pub rooms : List Uuid
  -- what was written to the socket
  pub written : List Event

pub record OutboundMessage : Type 0 where
  pub room_id : Option Uuid
  pub user_id : Option Uuid
  pub event : Event
  pub exclude : Option ℕ

pub record Hub : Type 0 where
  pub users : Table
  pub rooms : Table
  pub queue : List OutboundMessage
  pub conn_at : Heap Conn

unfoldable pub new_hub : Heap Conn → Hub
new_hub conns = record { users = []; rooms = []; queue = []; conn_at = conns }

unfoldable pub new_conn : User → Conn
new_conn user = record { user = user; send = []; rooms = []; written = [] }

-- The event is dropped where 64 wait.
unfoldable pub enqueue : Event → Conn → Conn
enqueue event c = record c {
  send = if ltb (length c.send) 64 then c.send ++ event ∷ [] else c.send;
}

-- A round of `writeLoop` whose write succeeds.
unfoldable pub write_conn : Conn → Conn
write_conn c = elim c.send [
  | [] ↦ c
  | event ∷ rest ↦ record c { send = rest; written = c.written ++ event ∷ [] }
]

unfoldable pub enqueue_each : Heap Conn → List ℕ → Event → Heap Conn
enqueue_each h [] event = h
enqueue_each h (c ∷ l) event = enqueue_each (update h c (enqueue event (h c))) l event

mark_each : List ℕ → List ℕ → List ℕ
mark_each [] l = l
mark_each (c ∷ cs) l = mark c (mark_each cs l)

-- `allConnectionsLocked`, of the table of users.
unfoldable pub all_connections : Table → List ℕ
unfolding mark_each
all_connections [] = []
all_connections ((k, l) ∷ m) = mark_each l (all_connections m)

unfoldable pub broadcast_presence : Uuid → Bool → ℕ → Hub → Hub
broadcast_presence user online now h = record h {
  conn_at =
      enqueue_each h.conn_at (all_connections h.users)
        (Event.presence (record { user_id = user; online = online; last_seen = now }));
}

unfoldable pub add_conn : ℕ → ℕ → Hub → Hub
add_conn now c h =
    broadcast_presence (h.conn_at c).user.id true now
      (record h { users = add_under (h.conn_at c).user.id c h.users })

-- Whether the connection was the last one of its user.
unfoldable pub leaves_user : ℕ → Hub → Bool
leaves_user c h = elim (lookup (h.conn_at c).user.id h.users) [
  | none ↦ false
  | some l ↦ is_nil (unmark c l)
]

unfoldable pub drop_user_conn : ℕ → ℕ → Hub → Hub
drop_user_conn now c h =
    let left = record h { users = remove_under (h.conn_at c).user.id c h.users } in
    if leaves_user c h then broadcast_presence (h.conn_at c).user.id false now left else left

unfoldable pub remove_conn : ℕ → ℕ → Hub → Hub
remove_conn now c h =
    let left = drop_user_conn now c h in record left { rooms = remove_everywhere c left.rooms }

abbrev pub not_excluded : Option ℕ → ℕ → Bool
not_excluded none c = true
not_excluded (some e) c = not (c == e)

-- The connections that `send` goes through.
unfoldable pub targets : OutboundMessage → Hub → List ℕ
targets msg h = elim msg.room_id [
  | some room ↦ set_of room h.rooms
  | none ↦ elim msg.user_id [ some user ↦ set_of user h.users | none ↦ [] ]
]

unfoldable pub send : OutboundMessage → Hub → Hub
send msg h = record h {
  conn_at = enqueue_each h.conn_at (keep_if (not_excluded msg.exclude) (targets msg h)) msg.event;
}

unfoldable pub subscribe_room : Uuid → ℕ → Hub → Hub
subscribe_room room c h = record h { rooms = add_under room c h.rooms }

unfoldable pub unsubscribe_room : Uuid → ℕ → Hub → Hub
unsubscribe_room room c h = record h { rooms = remove_under room c h.rooms }

unfoldable pub broadcast_room : Uuid → Event → Option ℕ → Hub → Hub
broadcast_room room event exclude h = record h {
  queue =
      h.queue
      ++ (record { room_id = some room; user_id = none; event = event; exclude = exclude }) ∷ [];
}

unfoldable pub broadcast_user : Uuid → Event → Option ℕ → Hub → Hub
broadcast_user user event exclude h = record h {
  queue =
      h.queue
      ++ (record { room_id = none; user_id = some user; event = event; exclude = exclude }) ∷ [];
}

-- What `Run` selects: a connection from `register` or `unregister`, or the oldest of the queue.
pub data Selected : Type 0 where
  from_register : ℕ → Selected
  from_unregister : ℕ → Selected
  from_broadcast : Selected

unfoldable pub deliver_first : List OutboundMessage → Hub → Hub
deliver_first [] h = h
deliver_first (msg ∷ rest) h = send msg (record h { queue = rest })

-- A round of `Run`, at the instant `now`.
unfoldable pub run_step : ℕ → Selected → Hub → Hub
unfolding deliver_first
run_step now (Selected.from_register c) h = add_conn now c h
run_step now (Selected.from_unregister c) h = remove_conn now c h
run_step now Selected.from_broadcast h = deliver_first h.queue h
