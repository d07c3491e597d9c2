-- ===== src/Ws/Hub/Sound.antt =====
-- The invariant of internal/ws/hub.go.
use livechat_server.Base.{
  ℕ, ◌≡◌, refl, true, not, ◌&&◌, List, [], ◌∷◌, arith, Heap, update, ==_iff, text_eq_iff, ◌==◌,
  Bool-cases, inl, inr,
}
use livechat_server.Ws.Messages.{Uuid, Event}
use livechat_server.Ws.Sets.{
  in_set, IsTidy, in_set-add_under, add_under, remove_under, remove_everywhere,
}
use livechat_server.Ws.Sets.Tidy.{
  add_under-IsTidy, remove_under-IsTidy, in_set-remove_under, remove_everywhere-IsTidy,
  in_set-remove_everywhere,
}
use livechat_server.Ws.Hub.{
  Hub, Conn, OutboundMessage, enqueue, enqueue_each, broadcast_presence, add_conn, remove_conn,
  drop_user_conn, send, Selected, run_step, deliver_first, leaves_user, subscribe_room,
  unsubscribe_room,
}

-- Both tables are tidy, and a connection stands under its own user alone.
pub record IsSound (h : Hub) : Type 0 where
  pub users_tidy : IsTidy h.users
  pub rooms_tidy : IsTidy h.rooms
  pub own_user : (k : Uuid) (c : ℕ) → in_set k c h.users ≡ true → k ≡ (h.conn_at c).user.id

pub user-enqueue_each :
    (g : Heap Conn) (l : List ℕ) (event : Event) (b : ℕ)
    → (enqueue_each g l event b).user ≡ (g b).user
unfolding enqueue_each enqueue update
user-enqueue_each g [] event b = refl
user-enqueue_each g (c ∷ l) event b =
    ground (arith, user-enqueue_each (update g c (enqueue event (g c))) l event b, ==_iff c b)

-- Sending to connections keeps the invariant.
enqueued-IsSound :
    (h : Hub) (l : List ℕ) (event : Event)
    → IsSound h
    → IsSound (record h { conn_at = enqueue_each h.conn_at l event })
enqueued-IsSound h l event s = record {
  users_tidy = s.users_tidy;
  rooms_tidy = s.rooms_tidy;
  own_user = λ k c e. rw (user-enqueue_each h.conn_at l event c) (s.own_user k c e);
}

-- The tables with a connection added to its user's set, and taken from it.
abbrev pub with_user : ℕ → Hub → Hub
with_user c h = record h { users = add_under (h.conn_at c).user.id c h.users }

abbrev pub without_user : ℕ → Hub → Hub
without_user c h = record h { users = remove_under (h.conn_at c).user.id c h.users }

pub with_user-IsSound : (c : ℕ) (h : Hub) → IsSound h → IsSound (with_user c h)
with_user-IsSound c h s = record {
  users_tidy = add_under-IsTidy (h.conn_at c).user.id c h.users s.users_tidy;
  rooms_tidy = s.rooms_tidy;
  own_user = λ k b e. ground (
    arith,
    in_set-add_under (h.conn_at c).user.id k c b h.users,
    s.own_user k b,
    ==_iff b c,
    text_eq_iff (h.conn_at c).user.id k,
  );
}

pub without_user-IsSound : (c : ℕ) (h : Hub) → IsSound h → IsSound (without_user c h)
without_user-IsSound c h s = record {
  users_tidy = remove_under-IsTidy (h.conn_at c).user.id c h.users s.users_tidy;
  rooms_tidy = s.rooms_tidy;
  own_user = λ k b e.
      ground (arith, in_set-remove_under (h.conn_at c).user.id k c b h.users, s.own_user k b);
}

pub add_conn-IsSound : (now c : ℕ) (h : Hub) → IsSound h → IsSound (add_conn now c h)
unfolding add_conn broadcast_presence
add_conn-IsSound now c h s = enqueued-IsSound (with_user c h) _ _ (with_user-IsSound c h s)

drop_user_conn-IsSound : (now c : ℕ) (h : Hub) → IsSound h → IsSound (drop_user_conn now c h)
unfolding drop_user_conn broadcast_presence
drop_user_conn-IsSound now c h s = elim (Bool-cases (leaves_user c h)) [
  | inl e ↦ rw e (enqueued-IsSound (without_user c h) _ _ (without_user-IsSound c h s))
  | inr e ↦ rw e (without_user-IsSound c h s)
]

pub remove_conn-IsSound : (now c : ℕ) (h : Hub) → IsSound h → IsSound (remove_conn now c h)
unfolding remove_conn
remove_conn-IsSound now c h s =
    with_rooms (drop_user_conn now c h) (drop_user_conn-IsSound now c h s)
  where
    with_rooms : (g : Hub) → IsSound g → IsSound (record g { rooms = remove_everywhere c g.rooms })
    with_rooms g t = record {
      users_tidy = t.users_tidy;
      rooms_tidy = remove_everywhere-IsTidy c g.rooms t.rooms_tidy;
      own_user = t.own_user;
    }

deliver_first-IsSound :
    (q : List OutboundMessage) (h : Hub) → IsSound h → IsSound (deliver_first q h)
unfolding deliver_first send
deliver_first-IsSound [] h s = s
deliver_first-IsSound (msg ∷ rest) h s =
    enqueued-IsSound (record h { queue = rest }) _ _
      (record { users_tidy = s.users_tidy; rooms_tidy = s.rooms_tidy; own_user = s.own_user })

-- Every round of Run keeps the invariant.
pub run_step-IsSound : (now : ℕ) (e : Selected) (h : Hub) → IsSound h → IsSound (run_step now e h)
unfolding run_step
run_step-IsSound now (Selected.from_register c) h s = add_conn-IsSound now c h s
run_step-IsSound now (Selected.from_unregister c) h s = remove_conn-IsSound now c h s
run_step-IsSound now Selected.from_broadcast h s = deliver_first-IsSound h.queue h s

pub subscribe_room-IsSound :
    (room : Uuid) (c : ℕ) (h : Hub) → IsSound h → IsSound (subscribe_room room c h)
unfolding subscribe_room
subscribe_room-IsSound room c h s = record {
  users_tidy = s.users_tidy;
  rooms_tidy = add_under-IsTidy room c h.rooms s.rooms_tidy;
  own_user = s.own_user;
}

pub unsubscribe_room-IsSound :
    (room : Uuid) (c : ℕ) (h : Hub) → IsSound h → IsSound (unsubscribe_room room c h)
unfolding unsubscribe_room
unsubscribe_room-IsSound room c h s = record {
  users_tidy = s.users_tidy;
  rooms_tidy = remove_under-IsTidy room c h.rooms s.rooms_tidy;
  own_user = s.own_user;
}

module _ (now c : ℕ) (h : Hub) where
  users-remove_conn : (remove_conn now c h).users ≡ remove_under (h.conn_at c).user.id c h.users
  unfolding remove_conn drop_user_conn broadcast_presence
  users-remove_conn = ground arith

  rooms-remove_conn : (remove_conn now c h).rooms ≡ remove_everywhere c h.rooms
  unfolding remove_conn drop_user_conn broadcast_presence
  rooms-remove_conn = ground arith

  -- After removeConn the connection is in no set of either table, and every other connection is
  -- where it was.
  pub remove_conn_everywhere :
      (k : Uuid) (b : ℕ)
      → IsSound h
      → (in_set k b (remove_conn now c h).users ≡ (in_set k b h.users && not (b == c)))
        × (in_set k b (remove_conn now c h).rooms ≡ (in_set k b h.rooms && not (b == c)))
  remove_conn_everywhere k b s = (
    rw users-remove_conn (
        ground (
          arith,
          in_set-remove_under (h.conn_at c).user.id k c b h.users,
          s.own_user k b,
          ==_iff b c,
          text_eq_iff (h.conn_at c).user.id k,
        )),
    rw rooms-remove_conn (in_set-remove_everywhere k c b h.rooms s.rooms_tidy.unique),
  )
