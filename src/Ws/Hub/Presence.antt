-- ===== src/Ws/Hub/Presence.antt =====
-- Who is told by the hub of internal/ws/hub.go that a user comes or goes.
use livechat_server.Base.{
  ℕ, ◌≡◌, ◌↔◌, sym, refl, ◌∙◌, Bool, true, false, not, ◌&&◌, ◌||◌, List, [], ◌∷◌, some, arith,
  contains, Distinct, ==_iff, if◌then◌else◌, ◌==◌, Option-cases, Bool-cases, inl, inr, lookup,
  UniqueKeys, text_eq_iff, is_nil,
}
use livechat_server.Ws.Messages.{Uuid, Event}
use livechat_server.Ws.Sets.{
  Table, set_of, in_set, contains-mark, contains-unmark, unmark, mark-Distinct, in_set-add_under,
}
use livechat_server.Ws.Sets.Tidy.{in_set-remove_under}
use livechat_server.Ws.Hub.{
  Hub, enqueue, all_connections, mark_each, add_conn, remove_conn, drop_user_conn,
  broadcast_presence, leaves_user,
}
use livechat_server.Ws.Hub.Sound.{
  IsSound, remove_conn_everywhere, with_user, without_user, with_user-IsSound, without_user-IsSound,
}
use livechat_server.Ws.Hub.Delivery.{enqueue_each-at}

contains-mark_each :
    (b : ℕ) (cs l : List ℕ) → contains b (mark_each cs l) ≡ (contains b cs || contains b l)
unfolding mark_each contains
contains-mark_each b [] l = refl
contains-mark_each b (c ∷ cs) l =
    ground (arith, contains-mark b c (mark_each cs l), contains-mark_each b cs l)

mark_each-Distinct : (cs l : List ℕ) → Distinct l → Distinct (mark_each cs l)
unfolding mark_each
mark_each-Distinct [] l d = d
mark_each-Distinct (c ∷ cs) l d = mark-Distinct c (mark_each cs l) (mark_each-Distinct cs l d)

all_connections-Distinct : (m : Table) → Distinct (all_connections m)
unfolding all_connections
all_connections-Distinct [] = tt
all_connections-Distinct ((k, l) ∷ m) =
    mark_each-Distinct l (all_connections m) (all_connections-Distinct m)

in_set-all_connections :
    (k : Uuid) (b : ℕ) (m : Table) → in_set k b m ≡ true → contains b (all_connections m) ≡ true
unfolding in_set set_of lookup all_connections contains
in_set-all_connections k b [] h = cc
in_set-all_connections k b ((j, l) ∷ m) h =
    ground (arith, contains-mark_each b l (all_connections m), in_set-all_connections k b m)

set_of_connection :
    (b : ℕ) (m : Table)
    → UniqueKeys m
    → contains b (all_connections m) ≡ true
    → (k : Uuid) × (in_set k b m ≡ true)
unfolding in_set set_of lookup all_connections contains
set_of_connection b [] u h = cc
set_of_connection b ((j, l) ∷ m) u h = elim (Bool-cases (contains b l)) [
  | inl e ↦ (j, ground (arith, text_eq_iff j j))
  | inr e ↦
      let (k, f) =
        set_of_connection b m u.1 (ground (arith, contains-mark_each b l (all_connections m))) in
      (k, ground (arith, text_eq_iff j k))
]

-- Whether a connection stands under its user.
abbrev pub is_registered : ℕ → Hub → Bool
is_registered b h = in_set (h.conn_at b).user.id b h.users

contains-all_connections :
    (b : ℕ) (h : Hub) → IsSound h → contains b (all_connections h.users) ≡ is_registered b h
contains-all_connections b h s = elim (Bool-cases (contains b (all_connections h.users))) [
  | inl e ↦
      let (k, f) = set_of_connection b h.users s.users_tidy.unique e in
      ground (arith, s.own_user k b f)
  | inr e ↦ ground (arith, in_set-all_connections (h.conn_at b).user.id b h.users)
]

broadcast_presence-at :
    (user : Uuid) (online : Bool) (now : ℕ) (h : Hub) (b : ℕ)
    → IsSound h
    → (broadcast_presence user online now h).conn_at b ≡ (
        if is_registered b h
        then enqueue
            (Event.presence (record { user_id = user; online = online; last_seen = now }))
            (h.conn_at b)
        else h.conn_at b)
unfolding broadcast_presence
broadcast_presence-at user online now h b s = rw (contains-all_connections b h s) at (
    enqueue_each-at h.conn_at (all_connections h.users)
      (Event.presence (record { user_id = user; online = online; last_seen = now })) b
      (all_connections-Distinct h.users))

-- Once a connection is added to a sound hub, it and every connection that was registered get one
-- event that its user is online, and no other connection gets anything.
pub add_conn_announces :
    (now c b : ℕ) (h : Hub)
    → IsSound h
    → (add_conn now c h).conn_at b ≡ (
        if is_registered b h || b == c
        then enqueue
            (Event.presence
              (record { user_id = (h.conn_at c).user.id; online = true; last_seen = now }))
            (h.conn_at b)
        else h.conn_at b)
unfolding add_conn
add_conn_announces now c b h s = ground (
  arith,
  broadcast_presence-at (h.conn_at c).user.id true now (with_user c h) b (with_user-IsSound c h s),
  in_set-add_under (h.conn_at c).user.id (h.conn_at b).user.id c b h.users,
  ==_iff b c,
  text_eq_iff (h.conn_at c).user.id (h.conn_at b).user.id,
)

is_nil_of_contains : (l : List ℕ) → ((b : ℕ) → contains b l ≡ false) → is_nil l ≡ true
unfolding contains
is_nil_of_contains [] f = refl
is_nil_of_contains (x ∷ l) f = ground (arith, f x, ==_iff x x)

contains-is_nil : (b : ℕ) (l : List ℕ) → is_nil l ≡ true → contains b l ≡ false
unfolding contains
contains-is_nil b [] h = refl
contains-is_nil b (x ∷ l) h = cc

-- Of a registered connection of a sound hub, `leaves_user` holds exactly if removing it leaves no
-- connection of its user.
pub leaves_user_iff :
    (now c : ℕ) (h : Hub)
    → IsSound h
    → is_registered c h ≡ true
    → (leaves_user c h ≡ true)
      ↔ ((b : ℕ) → in_set (h.conn_at c).user.id b (remove_conn now c h).users ≡ false)
unfolding leaves_user in_set set_of contains
leaves_user_iff now c h s r = elim (Option-cases (lookup (h.conn_at c).user.id h.users)) [
  | inl e ↦ absurd (ground arith)
  | inr (l, e) ↦ (
    λ f b. left b l e ∙ contains-is_nil b (unmark c l) (ground arith),
    λ f.
        let none_left = is_nil_of_contains (unmark c l) (λ b. sym (left b l e) ∙ f b) in
        ground arith,
  )
]
  where
    left :
        (b : ℕ) (l : List ℕ)
        → lookup (h.conn_at c).user.id h.users ≡ some l
        → in_set (h.conn_at c).user.id b (remove_conn now c h).users ≡ contains b (unmark c l)
    left b l e =
        ground
          (arith, remove_conn_everywhere now c h (h.conn_at c).user.id b s, contains-unmark b c l)

-- Removing a connection of a sound hub sends one event that its user is offline to each other
-- registered connection where `leaves_user` holds, and nothing else to anyone.
pub remove_conn_announces :
    (now c b : ℕ) (h : Hub)
    → IsSound h
    → (remove_conn now c h).conn_at b ≡ (
        if leaves_user c h && is_registered b h && not (b == c)
        then enqueue
            (Event.presence
              (record { user_id = (h.conn_at c).user.id; online = false; last_seen = now }))
            (h.conn_at b)
        else h.conn_at b)
unfolding remove_conn drop_user_conn
remove_conn_announces now c b h s = ground (
  arith,
  broadcast_presence-at (h.conn_at c).user.id false now (without_user c h) b
      (without_user-IsSound c h s),
  in_set-remove_under (h.conn_at c).user.id (h.conn_at b).user.id c b h.users,
  ==_iff b c,
  text_eq_iff (h.conn_at c).user.id (h.conn_at b).user.id,
)
