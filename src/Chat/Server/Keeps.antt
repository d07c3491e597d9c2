-- ===== src/Chat/Server/Keeps.antt =====
-- A property of the server that sending, every change of its tables and the closing of a session keep
-- is kept by joining rooms and by the end of a session.
use livechat_server.Base.{
  ℕ, ◌+◌, ◌%◌, ◌^◌, ◌≡◌, Bool, true, false, List, [], ◌∷◌, Text, Option, none, some, refl,
  if◌then◌else◌, update,
}
use livechat_server.Strings.{Unicode}
use livechat_server.Chat.Util.{Result, ok, err}
use livechat_server.Chat.Client.{close_link, new_link, new_client, client_id, guest_name}
use livechat_server.Chat.Registry.{Registry, Moved, alloc_client, add_client}
use livechat_server.Chat.Server.{
  Server, send, send_system, send_each, send_lines, broadcast_room, broadcast_room?, remove_client,
  shutdown, greet, greet_topic, greet_history, announce_join, after_leaving, enter_room, join_valid,
  join_room, start, admit, handle_conn,
}

pub record IsKept (Q : Server → Type 0) : Type 0 where
  pub moves : (g : Registry) (s : Server) → Q s → Q (record s { reg = g })
  pub sends : (c : ℕ) (message : Text) (s : Server) → Q s → Q (send s c message)
  pub closes :
      (c : ℕ) (s : Server)
      → (s.link_at c).done ≡ false
      → Q s
      → Q (record s { link_at = update s.link_at c (close_link (s.link_at c)) })

-- The server in handleConn, when it has made a client.
abbrev pub waiting : Server → Server
waiting s =
    let seq = (s.next_id + 1) % 2 ^ 64 in
    record s {
      reg = alloc_client s.reg (new_client (client_id seq) (guest_name seq));
      next_id = seq;
      link_at = update s.link_at s.next_client new_link;
    }

-- The server when it has closed the connection of a client that it refuses.
abbrev pub refused : ℕ → Server → Server
refused c s = record s { link_at = update s.link_at c (record (s.link_at c) { conn_open = false }) }

module _ (Q : Server → Type 0) (kept : IsKept Q) where
  pub if_keeps : (b : Bool) (x y : Server) → Q x → Q y → Q (if b then x else y)
  if_keeps true x y p q = p
  if_keeps false x y p q = q

  -- The test may be used.
  pub tested_keeps : (b : Bool) (x y : Server) → Q x → (b ≡ false → Q y) → Q (if b then x else y)
  tested_keeps true x y p q = p
  tested_keeps false x y p q = q refl

  pub send_system_keeps : (s : Server) (c : ℕ) (m : Text) → Q s → Q (send_system s c m)
  unfolding send_system
  send_system_keeps s c m q = kept.sends c _ s q

  send_each_keeps :
      (cs : List ℕ) (m : Text) (s : Server)
      → Q s
      → Q (record s { link_at = send_each s.cfg.send_buffer_size s.link_at cs m })
  unfolding send_each send
  send_each_keeps [] m s q = q
  send_each_keeps (c ∷ cs) m s q = send_each_keeps cs m (send s c m) (kept.sends c m s q)

  pub broadcast_keeps :
      (s : Server) (room : ℕ) (text : Text) (store : Bool) (exclude : Option ℕ)
      → Q s
      → Q (broadcast_room s room text store exclude)
  unfolding broadcast_room
  broadcast_keeps s room text store exclude q = kept.moves _ _ (send_each_keeps _ _ s q)

  pub broadcast?_keeps :
      (s : Server) (room : Option ℕ) (text : Text) (store : Bool) (exclude : Option ℕ)
      → Q s
      → Q (broadcast_room? s room text store exclude)
  unfolding broadcast_room?
  broadcast?_keeps s none text store exclude q = q
  broadcast?_keeps s (some room) text store exclude q = broadcast_keeps s room text store exclude q

  pub send_lines_keeps :
      (l : List Text) (s : Server) (c : ℕ) (name : Text) → Q s → Q (send_lines s c name l)
  unfolding send_lines
  send_lines_keeps [] s c name q = q
  send_lines_keeps (x ∷ l) s c name q = send_lines_keeps l _ c name (kept.sends c _ s q)

  module _ ⦃u : Unicode⦄ where
    pub shutdown_keeps : (s : Server) (c : ℕ) (reason : Text) → Q s → Q (shutdown s c reason)
    unfolding shutdown remove_client
    shutdown_keeps s c reason q =
        tested_keeps _ _ _ q
          λ e. broadcast?_keeps _ _ _ false (some c) (kept.moves _ _ (kept.closes c s e q))

    greet_topic_keeps : (s : Server) (c : ℕ) (t : Text) → Q s → Q (greet_topic s c t)
    unfolding greet_topic
    greet_topic_keeps s c [] q = q
    greet_topic_keeps s c (x ∷ t) q = send_system_keeps s c _ q

    greet_history_keeps :
        (s : Server) (c : ℕ) (name : Text) (l : List Text) → Q s → Q (greet_history s c name l)
    unfolding greet_history
    greet_history_keeps s c name [] q = q
    greet_history_keeps s c name (x ∷ l) q =
        send_lines_keeps (x ∷ l) _ c name (send_system_keeps s c _ q)

    greet_keeps : (s : Server) (c room : ℕ) → Q s → Q (greet s c room)
    unfolding greet
    greet_keeps s c room q =
        greet_history_keeps _ c _ _ (greet_topic_keeps _ c _ (send_system_keeps s c _ q))

    announce_join_keeps : (b : Bool) (s : Server) (c room : ℕ) → Q s → Q (announce_join b s c room)
    unfolding announce_join
    announce_join_keeps false s c room q = q
    announce_join_keeps true s c room q = broadcast_keeps s room _ false (some c) q

    after_leaving_keeps :
        (s : Server) (c room : ℕ) (p : Option ℕ) → Q s → Q (after_leaving s c room p)
    unfolding after_leaving
    after_leaving_keeps s c room none q = q
    after_leaving_keeps s c room (some previous) q =
        if_keeps _ _ _ q (kept.moves _ _ (broadcast_keeps s previous _ false (some c) q))

    enter_room_keeps :
        (s : Server) (c : ℕ) (m : Moved) (announce : Bool) → Q s → Q (enter_room s c m announce)
    unfolding enter_room
    enter_room_keeps s c m announce q =
        let moved = kept.moves m.registry s q in
        if_keeps m.already _ _ (send_system_keeps _ c _ moved) (
          after_leaving_keeps _ c m.room m.previous
            (announce_join_keeps announce _ c m.room (greet_keeps _ c m.room moved)))

    join_valid_keeps :
        (s : Server) (c : ℕ) (announce : Bool) (r : Result Text)
        → Q s
        → Q (join_valid s c announce r)
    unfolding join_valid
    join_valid_keeps s c announce (err e) q = send_system_keeps s c _ q
    join_valid_keeps s c announce (ok name) q = enter_room_keeps s c _ announce q

    pub join_room_keeps :
        (s : Server) (c : ℕ) (desired : Text) (announce : Bool)
        → Q s
        → Q (join_room s c desired announce)
    unfolding join_room
    join_room_keeps s c desired announce q = join_valid_keeps s c announce _ q

    pub start_keeps : (s : Server) (c : ℕ) → Q s → Q (start s c)
    unfolding start
    start_keeps s c q = join_room_keeps _ c s.cfg.lobby_name true (send_system_keeps s c _ q)

    admit_keeps :
        (s : Server) (c : ℕ) (r : Option Registry)
        → Q s
        → (r ≡ none → Q (refused c s))
        → Q (admit s c r)
    unfolding admit
    admit_keeps s c none q f = f refl
    admit_keeps s c (some g) q f = start_keeps _ c (kept.moves g s q)

    -- So do new connections, if a client that has no session yet keeps it, and one that is refused
    -- because its name is taken.
    pub handle_conn_keeps :
        (s : Server)
        → Q (waiting s)
        → (add_client (waiting s).reg s.next_client ≡ none → Q (refused s.next_client (waiting s)))
        → Q (handle_conn s)
    unfolding handle_conn
    handle_conn_keeps s q f = admit_keeps _ s.next_client _ q f
