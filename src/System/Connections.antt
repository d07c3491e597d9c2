-- ===== src/System/Connections.antt =====
-- Whose the connections of the hub are.
use livechat_server.Base.{
  ℕ, ◌≡◌, refl, Bool, true, false, ◌&&◌, ◌||◌, List, [], ◌∷◌, Text, Option, StrMap, arith,
  Option-cases, inl, inr, All, text_eq, text_eq_iff, ◌==◌, ==_iff, contains, lookup, lookup-insert,
  lookup-delete, update,
}
use livechat_server.Strings.{Unicode}
use livechat_server.Config.{Config}
use livechat_server.Store.Models.{Uuid, User}
use livechat_server.Store.Queries.{Call, Dialect}
use livechat_server.Store.Rows.{Tables, has_user}
use livechat_server.Store.Unique.{any-append}
use livechat_server.Http.Types.{Packages}
use livechat_server.Http.Token.{Verdict, denied, allowed}
use livechat_server.Http.Token.Known.{authenticated_socket}
use livechat_server.Http.Router.{serve}
use livechat_server.Http.Sockets.{serve_ws, serve_verdict, connect}
use livechat_server.Ws.Sets.{
  Table, in_set, set_of, remove_under, unmark, in_set-add_under, contains-unmark,
}
use livechat_server.Ws.Hub.{
  Hub, Conn, Selected, run_step, add_conn, remove_conn, drop_user_conn, broadcast_presence,
  deliver_first, send, new_conn, subscribe_room, unsubscribe_room, new_hub,
}
use livechat_server.Ws.Conn.{World}
use livechat_server.Ws.Conn.Keeps.{IsKept, handle_client_event_keeps}
use livechat_server.Ws.Histories.{Round}
use livechat_server.Ws.Histories as Rounds
use livechat_server.Ws.Database.{Database, store_over}
use livechat_server.System.{Input, deps_of, start, step, run}
use livechat_server.System.Requests.{serve_keeps}
use livechat_server.System.Sockets.{step_keeps}
use livechat_server.System.Growth.{HasGrown, HasGrown-same, HasGrown-IsLasting}

-- The connections under a key are there only if the tables hold the user with this id.
abbrev pub AreOfUsers : Tables → Table → Type 0
AreOfUsers t m = (k : Uuid) (b : ℕ) → in_set k b m ≡ true → has_user k t ≡ true

-- Only ServeWS, which is the input `socket`, registers a connection.
abbrev pub is_orderly : Input → Bool
is_orderly (Input.round now (Round.hub (Selected.from_register c))) = false
is_orderly _ = true

in_set-remove_under :
    (k j : Uuid) (c b : ℕ) (m : Table)
    → in_set j b (remove_under k c m) ≡ true
    → in_set j b m ≡ true
unfolding in_set remove_under set_of contains
in_set-remove_under k j c b m h = elim (Option-cases (lookup k m)) [
  | inl e ↦ ground arith
  | inr (l, e) ↦ ground (
    arith,
    lookup-insert k j (unmark c l) m,
    lookup-delete k j m,
    contains-unmark b c l,
    text_eq_iff k j,
  )
]

in_set-connect :
    (now c : ℕ) (user : User) (hub : Hub) (k : Uuid) (b : ℕ)
    → in_set k b (connect now c user hub).users
      ≡ ((text_eq user.id k && b == c) || in_set k b hub.users)
unfolding run_step add_conn broadcast_presence new_conn update
in_set-connect now c user hub k b =
    ground (arith, in_set-add_under user.id k c b hub.users, ==_iff c c)

module _ (t : Tables) where
  connect-AreOfUsers :
      (now c : ℕ) (user : User) (hub : Hub)
      → has_user user.id t ≡ true
      → AreOfUsers t hub.users
      → AreOfUsers t (connect now c user hub).users
  connect-AreOfUsers now c user hub known h k b e =
      ground (arith, in_set-connect now c user hub k b, text_eq_iff user.id k, h k b)

  verdict-AreOfUsers :
      (now : ℕ) (upgraded : Bool) (c : ℕ) (hub : Hub) (v : Verdict)
      → ((user : User) → v ≡ allowed user → has_user user.id t ≡ true)
      → AreOfUsers t hub.users
      → AreOfUsers t (serve_verdict now upgraded c hub v).1.users
  unfolding serve_verdict
  verdict-AreOfUsers now upgraded c hub (denied reason) known h = h
  verdict-AreOfUsers now true c hub (allowed user) known h =
      connect-AreOfUsers now c user hub (known user refl) h
  verdict-AreOfUsers now false c hub (allowed user) known h = h

  -- More users, or fewer connections.
  AreOfUsers-grown :
      (t' : Tables) (m m' : Table)
      → HasGrown t t'
      → ((k : Uuid) (b : ℕ) → in_set k b m' ≡ true → in_set k b m ≡ true)
      → AreOfUsers t m
      → AreOfUsers t' m'
  AreOfUsers-grown t' m m' g fewer h k b e =
      let (new, same) = g.users in
      rw same
        (ground (arith, any-append (λ r. text_eq r.user.id k) t.users new, h k b (fewer k b e)))

remove_conn-fewer :
    (now c : ℕ) (h : Hub) (k : Uuid) (b : ℕ)
    → in_set k b (remove_conn now c h).users ≡ true
    → in_set k b h.users ≡ true
unfolding remove_conn drop_user_conn broadcast_presence
remove_conn-fewer now c h k b e =
    in_set-remove_under (h.conn_at c).user.id k c b h.users (ground arith)

deliver-users : (h : Hub) → (deliver_first h.queue h).users ≡ h.users
unfolding deliver_first send
deliver-users h = ground arith

-- An event of a client leaves the table of users alone.
users-IsKept : (m : Table) (c : ℕ) → IsKept (λ h. h.users ≡ m) c
unfolding subscribe_room unsubscribe_room
users-IsKept m c = record {
  queues = λ q h e. e;
  sends = λ event h e. e;
  joins = λ room event h e. e;
  leaves = λ room h e. e;
}

module _ ⦃u : Unicode⦄ (cfg : Config) (p : Packages) (d : Dialect)
    (match : Text → Text → Option (StrMap Text)) (calls reads : ℕ → Call) where
  round-fewer :
      (now : ℕ) (r : Round) (w : World Database)
      → is_orderly (Input.round now r) ≡ true
      → (k : Uuid) (b : ℕ)
      → in_set k b (Rounds.step (store_over calls reads) p.parse_uuid now r w).hub.users ≡ true
      → in_set k b w.hub.users ≡ true
  unfolding Rounds.step run_step
  round-fewer now (Round.hub (Selected.from_register c)) w o k b e = absurd (ground arith)
  round-fewer now (Round.hub (Selected.from_unregister c)) w o k b e =
      remove_conn-fewer now c w.hub k b e
  round-fewer now (Round.hub Selected.from_broadcast) w o k b e = rw (deliver-users w.hub) at e
  round-fewer now (Round.read msg c) w o k b e =
      rw
        (handle_client_event_keeps (λ h. h.users ≡ w.hub.users) c (users-IsKept w.hub.users c)
          (store_over calls reads) p.parse_uuid now msg w refl)
        at e
  round-fewer now (Round.write c) w o k b e = e

  step-AreOfUsers :
      (i : Input) (w : World Database)
      → is_orderly i ≡ true
      → AreOfUsers w.db.tables w.hub.users
      → AreOfUsers
          (step cfg p d match calls reads i w).db.tables
          (step cfg p d match calls reads i w).hub.users
  unfolding step serve_ws
  step-AreOfUsers (Input.request env r) w o h =
      elim (Option-cases (serve p (deps_of cfg d) match env r w.db.tables)) [
        | inl e ↦ rw (e, step) h
        | inr ((t, response), e) ↦
            rw (e, step)
              (AreOfUsers-grown w.db.tables t w.hub.users w.hub.users
                (serve_keeps (HasGrown w.db.tables) (HasGrown-IsLasting w.db.tables) p
                  (deps_of cfg d) match env r w.db.tables t response (HasGrown-same w.db.tables) e)
                (λ k b f. f) h)
      ]
  step-AreOfUsers (Input.socket env upgraded c r) w o h =
      verdict-AreOfUsers w.db.tables env.now upgraded c w.hub _
        (λ user e. authenticated_socket p cfg.jwt_secret env r w.db.tables user e) h
  step-AreOfUsers (Input.round now r) w o h =
      AreOfUsers-grown w.db.tables _ w.hub.users _
        (step_keeps (HasGrown w.db.tables) (HasGrown-IsLasting w.db.tables) calls reads p.parse_uuid
          now r w (HasGrown-same w.db.tables))
        (round-fewer now r w o) h

  run-AreOfUsers :
      (inputs : List Input) (w : World Database)
      → All (λ i. is_orderly i ≡ true) inputs
      → AreOfUsers w.db.tables w.hub.users
      → AreOfUsers
          (run cfg p d match calls reads inputs w).db.tables
          (run cfg p d match calls reads inputs w).hub.users
  unfolding run
  run-AreOfUsers [] w o h = h
  run-AreOfUsers (i ∷ inputs) w o h =
      run-AreOfUsers inputs (step cfg p d match calls reads i w) o.1 (step-AreOfUsers i w o.0 h)

  -- Whatever comes, where only ServeWS registers connections: each connection that the hub holds under
  -- a user stands under one that the tables hold.
  pub connections-AreOfUsers :
      (find_call insert_call get_call : Call) (creator : Uuid) (conns : ℕ → Conn) (t : Tables)
      (inputs : List Input)
      → All (λ i. is_orderly i ≡ true) inputs
      → AreOfUsers
          (run cfg p d match calls reads inputs
            (start d find_call insert_call get_call creator conns t)).db.tables
          (run cfg p d match calls reads inputs
            (start d find_call insert_call get_call creator conns t)).hub.users
  unfolding start new_hub in_set set_of contains lookup
  connections-AreOfUsers find_call insert_call get_call creator conns t inputs o =
      run-AreOfUsers inputs (start d find_call insert_call get_call creator conns t) o
        (λ k b e. absurd (ground arith))
