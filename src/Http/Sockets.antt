-- ===== src/Http/Sockets.antt =====
-- `ServeWS` of internal/ws/hub.go: the request behind a connection of the hub.
use livechat_server.Base.{
  ℕ, ◌≡◌, ◌↔◌, refl, Bool, true, false, Text, Option, none, some, if◌then◌else◌, arith, update,
  ==_iff, Heap, text_eq_iff,
}
use livechat_server.Strings.{Unicode}
use livechat_server.Store.Models.{User}
use livechat_server.Store.Rows.{Tables}
use livechat_server.Http.Types.{Request, Response, Packages, Env, respond, plain}
use livechat_server.Http.Token.{authenticate, authenticate_socket, Verdict, denied, allowed}
use livechat_server.Http.Token.Known.{authenticate_socket_same}
use livechat_server.Ws.Hub.{
  Hub, Conn, Selected, new_conn, run_step, add_conn, broadcast_presence, all_connections,
}
use livechat_server.Ws.Hub.Sound.{user-enqueue_each}
use livechat_server.Ws.Hub.Presence.{is_registered}
use livechat_server.Ws.Sets.{Table, add_under, in_set-add_under}
use livechat_server.Ws.Messages.{Event}

-- A new connection at an address, which `Run` takes from the channel.
abbrev pub connect : ℕ → ℕ → User → Hub → Hub
connect now c user hub =
    run_step now (Selected.from_register c)
      (record hub { conn_at = update hub.conn_at c (new_conn user) })

-- The response, if the request is refused, and the hub. `upgraded` is whether the upgrade of the
-- request to a socket succeeds, and `c` the address of the new connection.
unfoldable pub serve_verdict : ℕ → Bool → ℕ → Hub → Verdict → Option Response × Hub
serve_verdict now upgraded c hub (denied reason) = (some (respond 401 (plain reason)), hub)
serve_verdict now upgraded c hub (allowed user) =
    if upgraded then (none, connect now c user hub) else (none, hub)

unfoldable pub serve_ws :
    ⦃u : Unicode⦄
    → Packages
    → Text
    → Env
    → Bool
    → ℕ
    → Request
    → Tables
    → Hub
    → Option Response × Hub
serve_ws p secret env upgraded c r t hub =
    serve_verdict env.now upgraded c hub (authenticate_socket p secret env r t)

connected :
    (now c : ℕ) (user : User) (hub : Hub)
    → (is_registered c (connect now c user hub) ≡ true)
      × (((connect now c user hub).conn_at c).user ≡ user)
unfolding run_step add_conn broadcast_presence new_conn update
connected now c user hub = ground (
  arith,
  user-enqueue_each conns (all_connections users) came c,
  in_set-add_under user.id user.id c c hub.users,
  text_eq_iff user.id user.id,
  ==_iff c c,
)
  where
    conns : Heap Conn
    conns = update hub.conn_at c (new_conn user)

    users : Table
    users = add_under (conns c).user.id c hub.users

    came : Event
    came = Event.presence (record { user_id = (conns c).user.id; online = true; last_seen = now })

verdict_registered :
    (now : ℕ) (upgraded : Bool) (c : ℕ) (hub : Hub) (v : Verdict)
    → is_registered c hub ≡ false
    → (is_registered c (serve_verdict now upgraded c hub v).1 ≡ true) ↔ (
        (user : User) × (v ≡ allowed user)
        × (upgraded ≡ true)
        × (((serve_verdict now upgraded c hub v).1.conn_at c).user ≡ user))
unfolding serve_verdict
verdict_registered now upgraded c hub (denied reason) new =
    (λ h. absurd (ground arith), λ h. absurd (ground arith))
verdict_registered now true c hub (allowed user) new =
    (λ h. (user, refl, refl, (connected now c user hub).1), λ h. (connected now c user hub).0)
verdict_registered now false c hub (allowed user) new =
    (λ h. absurd (ground arith), λ h. absurd (ground arith))

-- A new connection, which no user has yet, is registered exactly if the token of the request is that
-- of a user and the upgrade succeeds; it is this user's then.
pub serve_ws-registered :
    ⦃u : Unicode⦄
    → (p : Packages) (secret : Text) (env : Env) (upgraded : Bool) (c : ℕ) (r : Request)
      (t : Tables) (hub : Hub)
    → is_registered c hub ≡ false
    → (is_registered c (serve_ws p secret env upgraded c r t hub).1 ≡ true) ↔ (
        (user : User) × (authenticate p secret env r t ≡ allowed user)
        × (upgraded ≡ true)
        × (((serve_ws p secret env upgraded c r t hub).1.conn_at c).user ≡ user))
unfolding serve_ws
serve_ws-registered p secret env upgraded c r t hub new =
    rw (← authenticate_socket_same p secret env r t)
      (verdict_registered env.now upgraded c hub (authenticate_socket p secret env r t) new)
