-- ===== src/Chat/Server.antt =====
-- internal/chat/server.go: the server's state, sending, joining rooms, and the end of a session.
-- The mutex-guarded part is in Registry; a handler runs to its end before the next one starts.
pub mod Frames
pub mod Sound
pub mod Delivery
pub mod Keeps
use livechat_server.Base.{
  ℕ, suc, ◌+◌, ◌%◌, ◌^◌, ◌≡◌, Bool, true, false, not, List, [], ◌∷◌, ◌++◌, Text, codes,
  if◌then◌else◌, Option, none, some, is_nil, ℤ, StrMap, Heap, update, ◌==◌, length,
}
use livechat_server.Strings.{Unicode, trim_space}
use livechat_server.Strings.Decimal.{dec}
use livechat_server.Chat.Config.{Config, with_defaults}
use livechat_server.Chat.Util.{Result, ok, err, error_text, sanitize_room_name}
use livechat_server.Chat.Room.{Room, append_history, members_snapshot, member_count, recent_history}
use livechat_server.Chat.Client.{
  Client, Link, client_id, guest_name, new_client, new_link, send_link, close_link,
}
use livechat_server.Chat.Registry.{
  Registry, Moved, add_client, alloc_client, put_room, client_name, unregister, move_client_room,
  cleanup_room,
}

pub record Server : Type 0 where
  pub cfg : Config
  pub reg : Registry
  pub open reg use *
  pub next_id : ℕ
  pub link_at : Heap Link

abbrev empty_client : Client
empty_client = record { id = []; name = []; room_key = []; room_display = [] }

abbrev empty_room : Room
empty_room = record {
  key = [];
  name = [];
  topic = [];
  members = [];
  history = [];
  history_limit = ℤ.pos 0;
}

abbrev pub empty_registry : Registry
empty_registry = record {
  rooms = [];
  clients = [];
  names = [];
  client_at = λ a. empty_client;
  room_at = λ a. empty_room;
  next_client = 0;
  next_room = 0;
}

unfoldable pub new_server : Config → Server
new_server cfg = record {
  cfg = with_defaults cfg;
  reg = empty_registry;
  next_id = 0;
  link_at = λ a. new_link;
}

-- `Send`.
unfoldable pub send : Server → ℕ → Text → Server
send s c message = record s {
  link_at = update s.link_at c (send_link s.cfg.send_buffer_size (s.link_at c) message);
}

-- `sendSystem`.
unfoldable pub send_system : Server → ℕ → Text → Server
unfolding send
send_system s c message = send s c (codes "[" ++ (s.cfg.system_name ++ (codes "] " ++ message)))

-- The loop of `broadcastRoom`, on the links.
unfoldable pub send_each : ℤ → Heap Link → List ℕ → Text → Heap Link
send_each capacity h [] message = h
send_each capacity h (c ∷ cs) message =
    send_each capacity (update h c (send_link capacity (h c) message)) cs message

abbrev pub room_line : Text → Text → Text
room_line name text = codes "[" ++ (name ++ (codes "] " ++ text))

abbrev store_history : Bool → Text → Registry → ℕ → Registry
store_history true text g room = put_room g room (append_history (g.room_at room) text)
store_history false text g room = g

-- `broadcastRoom`, for a room that is not nil.
unfoldable pub broadcast_room : Server → ℕ → Text → Bool → Option ℕ → Server
broadcast_room s room text store exclude = record s {
  reg = store_history store text s.reg room;
  link_at =
      send_each s.cfg.send_buffer_size s.link_at (members_snapshot (s.room_at room) exclude)
        (room_line (s.room_at room).name text);
}

-- `broadcastRoom`, where nil is no room.
unfoldable pub broadcast_room? : Server → Option ℕ → Text → Bool → Option ℕ → Server
broadcast_room? s none text store exclude = s
broadcast_room? s (some room) text store exclude = broadcast_room s room text store exclude

unfoldable pub send_lines : Server → ℕ → Text → List Text → Server
send_lines s c name [] = s
send_lines s c name (line ∷ rest) = send_lines (send s c (room_line name line)) c name rest

module _ ⦃u : Unicode⦄ where
  -- `removeClient`.
  unfoldable pub remove_client : Server → ℕ → Text → Server
  remove_client s c reason =
      let (g, room) = unregister s.cfg.lobby_name s.reg c in
      broadcast_room? (record s { reg = g }) room
        (client_name g c ++ (codes " left (" ++ (reason ++ codes ")"))) false (some c)

  -- `shutdown` of a client, whose body runs once.
  unfoldable pub shutdown : Server → ℕ → Text → Server
  shutdown s c reason =
      if (s.link_at c).done
      then s
      else remove_client (record s { link_at = update s.link_at c (close_link (s.link_at c)) }) c
          reason

  pub greet_topic : Server → ℕ → Text → Server
  greet_topic s c topic = if is_nil topic then s else send_system s c (codes "Topic: " ++ topic)

  pub greet_history : Server → ℕ → Text → List Text → Server
  greet_history s c name [] = s
  greet_history s c name (line ∷ lines) =
      send_lines
        (send_system s c (codes "Recent " ++ (dec (length (line ∷ lines)) ++ codes " messages:"))) c
        name (line ∷ lines)

  -- What a client is told of the room that it has joined.
  unfoldable pub greet : Server → ℕ → ℕ → Server
  unfolding greet_topic greet_history
  greet s c room =
      let r = s.room_at room in
      let joined = send_system s c (
        codes "Joined #"
        ++ (r.name ++ (codes " (" ++ (dec (member_count r) ++ codes " users)")))) in
      greet_history (greet_topic joined c r.topic) c r.name (recent_history r s.cfg.history_limit)

  pub announce_join : Bool → Server → ℕ → ℕ → Server
  announce_join false s c room = s
  announce_join true s c room =
      broadcast_room s room (client_name s.reg c ++ codes " joined the room") false (some c)

  -- The room that was left is told, and removed if it is empty.
  after_leaving : Server → ℕ → ℕ → Option ℕ → Server
  after_leaving s c room none = s
  after_leaving s c room (some previous) =
      let told =
        broadcast_room s previous (client_name s.reg c ++ codes " left the room") false (some c) in
      if previous == room
      then s
      else record told { reg = cleanup_room told.cfg.lobby_name told.reg previous }

  -- `joinRoom` behind the sanitizer.
  unfoldable pub enter_room : Server → ℕ → Moved → Bool → Server
  unfolding announce_join after_leaving
  enter_room s c m announce =
      let s' = record s { reg = m.registry } in
      if m.already
      then send_system s' c (codes "You are already in #" ++ (m.registry.room_at m.room).name)
      else after_leaving (announce_join announce (greet s' c m.room) c m.room) c m.room m.previous

  join_valid : Server → ℕ → Bool → Result Text → Server
  join_valid s c announce (err e) = send_system s c (error_text e)
  join_valid s c announce (ok name) =
      enter_room s c (move_client_room s.cfg.lobby_name s.cfg.history_limit s.reg c name) announce

  unfoldable pub join_room : Server → ℕ → Text → Bool → Server
  unfolding join_valid
  join_room s c desired announce =
      join_valid s c announce
        (sanitize_room_name (if is_nil (trim_space desired) then s.cfg.lobby_name else desired))

  -- `start`, up to the loop that reads.
  unfoldable pub start : Server → ℕ → Server
  start s c =
      join_room
        (send_system s c
          (codes "Welcome to " ++ (s.cfg.system_name ++ codes "! Type /help for commands.")))
        c s.cfg.lobby_name true

  admit : Server → ℕ → Option Registry → Server
  admit s c none = record s {
    link_at = update s.link_at c (record (s.link_at c) { conn_open = false });
  }
  admit s c (some g) = start (record s { reg = g }) c

  -- `handleConn`, up to the loop that reads: the sequence number is an `uint64`.
  unfoldable pub handle_conn : Server → Server
  unfolding admit
  handle_conn s =
      let seq = (s.next_id + 1) % 2 ^ 64 in
      let c = s.next_client in
      let client = new_client (client_id seq) (guest_name seq) in
      let g = alloc_client s.reg client in
      let s' = record s { reg = g; next_id = seq; link_at = update s.link_at c new_link } in
      admit s' c (add_client g c)
