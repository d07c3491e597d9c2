-- ===== src/Ws/Conn/Sound.antt =====
-- The handlers of internal/ws/conn.go keep the hub's invariant, and so does every history.
use livechat_server.Base.{
  ℕ, ◌≡◌, refl, List, [], Text, Option, arith, update, ==_iff, lookup, contains,
}
use livechat_server.Strings.{Unicode}
use livechat_server.Ws.Messages.{Uuid, ClientEvent, Event}
use livechat_server.Ws.Sets.{set_of, in_set, IsTidy}
use livechat_server.Ws.Hub.{
  Hub, Conn, OutboundMessage, enqueue, write_conn, subscribe_room, new_hub,
}
use livechat_server.Ws.Hub.Sound.{IsSound, subscribe_room-IsSound, unsubscribe_room-IsSound}
use livechat_server.Ws.Conn.Keeps.{IsKept, handle_client_event_keeps}
use livechat_server.Ws.Conn.{World, Store, add_room, drop_room, handle_client_event}

-- The queue is not constrained.
pub queued-IsSound :
    (q : List OutboundMessage) (h : Hub) → IsSound h → IsSound (record h { queue = q })
queued-IsSound q h s = record {
  users_tidy = s.users_tidy;
  rooms_tidy = s.rooms_tidy;
  own_user = s.own_user;
}

-- A change of one connection that keeps its user.
pub rewritten-IsSound :
    (c : ℕ) (f : Conn → Conn) (h : Hub)
    → ((x : Conn) → (f x).user ≡ x.user)
    → IsSound h
    → IsSound (record h { conn_at = update h.conn_at c (f (h.conn_at c)) })
rewritten-IsSound c f h keeps s = record {
  users_tidy = s.users_tidy;
  rooms_tidy = s.rooms_tidy;
  own_user =
      λ k b e. unfold update in ground (arith, s.own_user k b, keeps (h.conn_at c), ==_iff c b);
}

user-enqueue : (event : Event) (x : Conn) → (enqueue event x).user ≡ x.user
unfolding enqueue
user-enqueue event x = refl

user-joined :
    (event : Event) (room : Uuid) (x : Conn) → (enqueue event (add_room room x)).user ≡ x.user
unfolding enqueue add_room
user-joined event room x = refl

pub user-write_conn : (x : Conn) → (write_conn x).user ≡ x.user
unfolding write_conn
user-write_conn x = ground arith

pub new_hub-IsSound : (conns : ℕ → Conn) → IsSound (new_hub conns)
unfolding new_hub
new_hub-IsSound conns = record {
  users_tidy = empty_tidy;
  rooms_tidy = empty_tidy;
  own_user = λ k c e. unfold in_set set_of lookup contains in cc;
}
  where
    empty_tidy : IsTidy []
    empty_tidy = record {
      unique = tt;
      filled = λ k e. unfold lookup in cc;
      distinct = λ k. unfold set_of lookup in tt;
    }

IsSound-IsKept : (c : ℕ) → IsKept IsSound c
unfolding subscribe_room
IsSound-IsKept c = record {
  queues = queued-IsSound;
  sends = λ event h s. rewritten-IsSound c (enqueue event) h (user-enqueue event) s;
  joins = λ room event h s.
      rewritten-IsSound c (λ x. enqueue event (add_room room x)) (subscribe_room room c h)
        (user-joined event room) (subscribe_room-IsSound room c h s);
  leaves = λ room h s.
      unsubscribe_room-IsSound room c _
        (rewritten-IsSound c (drop_room room) h (λ x. unfold drop_room in refl) s);
}

pub handle_client_event-IsSound :
    ⦃u : Unicode⦄
    → {Db : Type 0} (store : Store Db) (parse : Text → Option Uuid) (now : ℕ) (msg : ClientEvent)
      (c : ℕ) (w : World Db)
    → IsSound w.hub
    → IsSound (handle_client_event store parse now msg c w).hub
handle_client_event-IsSound store parse now msg c w s =
    handle_client_event_keeps IsSound c (IsSound-IsKept c) store parse now msg w s
