-- ===== src/Chat/Commands.antt =====
-- internal/chat/server.go: the commands, from `handleInput` down.
pub mod Sound
pub mod Messages
pub mod Listings
pub mod Keeps
mod Words
mod Tables
unfoldable pub use Words.*
unfoldable pub use Tables.*
use livechat_server.Base.{
  ℕ, ◌≡◌, Bool, true, false, List, [], ◌∷◌, ◌++◌, map, Text, codes, if◌then◌else◌, Option, none,
  some, is_nil, ℤ, pos, is_nonpos, values, lookup, length, text_eq, ltb, ◌==◌, ◌||◌, ◌&&◌,
}
use livechat_server.Strings.{
  Unicode, trim_space, to_lower, equal_fold, fields, join, byte_len, drop_bytes, has_slash,
}
use livechat_server.Strings.Decimal.{dec}
use livechat_server.Strings.Sorting.{sort_by, text_le}
use livechat_server.Chat.Util.{
  Result, ok, err, error_text, sanitize_user_name, parse_command, parse_optional_int,
}
use livechat_server.Chat.Room.{Room, set_topic, member_names, member_count, recent_history}
use livechat_server.Chat.Client.{set_client_name}
use livechat_server.Chat.Registry.{
  Registry, room_for_client, put_room, put_client, client_name, take_name,
}
use livechat_server.Chat.Server.{
  Server, send, send_system, send_lines, broadcast_room, broadcast_room?, join_room, shutdown,
}

unfoldable pub post_message : Server → ℕ → Text → Server
post_message s c text = elim (room_for_client s.reg c) [
  | none ↦ send_system s c join_first
  | some room ↦ broadcast_room s room (client_name s.reg c ++ (codes ": " ++ text)) true none
]

unfoldable pub cmd_action : Server → ℕ → Text → Server
cmd_action s c args =
    if is_nil (trim_space args)
    then send_system s c (codes "Usage: /me <action>")
    else elim (room_for_client s.reg c) [
      | none ↦ send_system s c join_first
      | some room ↦
          broadcast_room s room (codes "* " ++ (client_name s.reg c ++ (codes " " ++ args))) true
            none
    ]

-- `cmdNick` behind its critical section.
unfoldable pub finish_nick : Server → ℕ → Text → Text → Server
finish_nick s c old_name name =
    let g = put_client s.reg c (set_client_name (s.client_at c) name) in
    let told = send_system (record s { reg = g }) c (codes "You're now known as " ++ name) in
    broadcast_room? told (room_for_client g c) (old_name ++ (codes " is now known as " ++ name))
      false (some c)

module _ ⦃u : Unicode⦄ where
  -- Behind the attempt to take the name.
  unfoldable pub after_take : Server → ℕ → Text → Option Registry → Server
  after_take s c name none = send_system s c (codes "That name is already taken.")
  after_take s c name (some g) = finish_nick (record s { reg = g }) c (client_name s.reg c) name

  -- Behind the sanitizer.
  unfoldable pub nick_valid : Server → ℕ → Result Text → Server
  unfolding after_take
  nick_valid s c (err e) = send_system s c (error_text e)
  nick_valid s c (ok name) = after_take s c name (take_name s.reg c (client_name s.reg c) name)

  unfoldable pub cmd_nick : Server → ℕ → Text → Server
  unfolding nick_valid
  cmd_nick s c args =
      if is_nil (trim_space args)
      then send_system s c (codes "Usage: /nick <new-name>")
      else nick_valid s c (sanitize_user_name args)

module _ ⦃u : Unicode⦄ where
  -- A direct message, to the client that holds the name.
  deliver : Server → ℕ → Text → Option ℕ → Server
  deliver s from text none = send_system s from (codes "User not found.")
  deliver s from text (some target) =
      let payload = trim_space text in
      let to_msg = codes "[dm] " ++ (client_name s.reg from ++ (codes " → you: " ++ payload)) in
      let from_msg = codes "[dm] you → " ++ (client_name s.reg target ++ (codes ": " ++ payload)) in
      if is_nil payload
      then send_system s from (codes "Message cannot be empty.")
      else send (send s target to_msg) from from_msg

  unfoldable pub direct_message : Server → ℕ → Text → Text → Server
  unfolding deliver
  direct_message s from target_name text =
      deliver s from text (lookup (to_lower target_name) s.names)

  msg_usage : Server → ℕ → Server
  msg_usage s c = send_system s c (codes "Usage: /msg <user> <message>")

  msg_to : Server → ℕ → Text → List Text → Server
  unfolding msg_usage
  msg_to s c args [] = msg_usage s c
  msg_to s c args (target ∷ []) = msg_usage s c
  msg_to s c args (target ∷ word ∷ words) =
      let message = trim_space (drop_bytes (byte_len target) args) in
      if is_nil (trim_space message)
      then send_system s c (codes "You need to provide a message body.")
      else direct_message s c target message

  unfoldable pub cmd_msg : Server → ℕ → Text → Server
  unfolding msg_to
  cmd_msg s c args = msg_to s c args (fields args)

change_topic : Server → ℕ → ℕ → Text → Server
change_topic s c room args =
    let (r, new_topic) = set_topic (s.room_at room) args in
    broadcast_room (record s { reg = put_room s.reg room r }) room
      (client_name s.reg c ++ (codes " set the topic: " ++ new_topic)) false none

tell_topic : Server → ℕ → Room → Server
tell_topic s c r =
    if is_nil r.topic
    then send_system s c (codes "No topic set for this room.")
    else send_system s c (codes "Topic for #" ++ (r.name ++ (codes ": " ++ r.topic)))

unfoldable pub cmd_topic : Server → ℕ → Text → Server
unfolding change_topic tell_topic
cmd_topic s c args = elim (room_for_client s.reg c) [
  | none ↦ send_system s c not_in_room
  | some room ↦
      if is_nil (trim_space args)
      then tell_topic s c (s.room_at room)
      else change_topic s c room args
]

send_history : Server → ℕ → Text → List Text → Server
send_history s c name [] = send_system s c (codes "No history yet.")
send_history s c name (line ∷ lines) =
    send_lines
      (send_system s c (
        codes "Last "
        ++ (dec (length (line ∷ lines)) ++ (codes " messages in #" ++ (name ++ codes ":")))))
      c name (line ∷ lines)

history_of : Server → ℕ → ℕ → Option ℤ → Server
unfolding send_history
history_of s c room none = send_system s c (codes "History length must be a number.")
history_of s c room (some limit) =
    let r = s.room_at room in
    send_history s c r.name (recent_history r (if is_nonpos limit then pos 10 else limit))

unfoldable pub cmd_history : Server → ℕ → Text → Server
unfolding history_of
cmd_history s c args = elim (room_for_client s.reg c) [
  | none ↦ send_system s c not_in_room
  | some room ↦ history_of s c room (parse_optional_int args (pos 10))
]

module _ ⦃u : Unicode⦄ where
  unfoldable pub execute : Server → ℕ → Command → Text → Server
  unfolding help_text
  execute s c help args = send_system s c help_text
  execute s c nick args = cmd_nick s c args
  execute s c who args = cmd_who s c args
  execute s c rooms args = cmd_rooms s c
  execute s c join_cmd args = join_room s c args true
  execute s c leave args = join_room s c s.cfg.lobby_name true
  execute s c msg args = cmd_msg s c args
  execute s c topic args = cmd_topic s c args
  execute s c history args = cmd_history s c args
  execute s c me args = cmd_action s c args
  execute s c quit args = shutdown (send_system s c (codes "Bye!")) c (codes "quit")
  execute s c whoami args =
      send_system s c (
        codes "You are "
        ++ (client_name s.reg c ++ (codes " in #" ++ (s.client_at c).room_display)))
  execute s c ping args = send_system s c (codes "pong")
  execute s c unknown args = send_system s c (codes "Unknown command. Type /help for assistance.")

  unfoldable pub execute_command : Server → ℕ → Text → Text → Server
  execute_command s c cmd args = execute s c (command_of cmd) args

  run_command : Server → ℕ → Text × Text → Server
  run_command s c (cmd, args) = if is_nil cmd then s else execute_command s c cmd args

  unfoldable pub handle_input : Server → ℕ → Text → Server
  unfolding run_command
  handle_input s c line =
      let trimmed = trim_space line in
      if is_nil trimmed
      then s
      else if has_slash trimmed
      then run_command s c (parse_command trimmed)
      else post_message s c trimmed
