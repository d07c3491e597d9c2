-- ===== src/Chat/Commands/Sound.antt =====
-- Every command keeps the server's invariant.
use livechat_server.Base.{
  ℕ, ◌≡◌, refl, sym, ◌∙◌, Bool, true, false, List, [], ◌∷◌, Text, Option, none, some, Bool-cases,
  inl, inr, is_nil, ap, Option-cases, lookup, if◌then◌else◌, ℤ,
}
use livechat_server.Strings.{Unicode, trim_space, has_slash, drop_bytes, byte_len, to_lower}
use livechat_server.Chat.Util.{Result, ok, err, parse_command}
use livechat_server.Chat.Room.{Room, set_topic}
use livechat_server.Chat.Registry.{Registry, room_for_client, put_room, client_name, take_name}
use livechat_server.Chat.Registry.Invariant.{IsOnline}
use livechat_server.Chat.Registry.Clients.{put_room-Inv}
use livechat_server.Chat.Registry.Names.{renamed, renamed-Inv, take_name-renamed}
use livechat_server.Chat.Server.{Server}
use livechat_server.Chat.Server.Frames.{
  OnlyLinks, OnlyLinks-trans, send-OnlyLinks, send_system-OnlyLinks, send_lines-OnlyLinks,
  broadcast?-OnlyLinks,
}
use livechat_server.Chat.Server.Sound.{
  IsSound, OnlyLinks-IsSound, broadcast-IsSound, join_room-IsSound, shutdown-IsSound,
}
use livechat_server.Chat.Commands.{
  Command, command_of, post_message, cmd_action, finish_nick, after_take, nick_valid, cmd_nick,
  who_room, cmd_who, send_rooms, cmd_rooms, deliver, direct_message, msg_usage, msg_to, cmd_msg,
  change_topic, tell_topic, cmd_topic, send_history, history_of, cmd_history, execute,
  execute_command, run_command, handle_input, Summary,
}

-- Listings and direct messages send, and change nothing else.
who_room-OnlyLinks : (s : Server) (c : ℕ) (r : Option ℕ) → OnlyLinks s (who_room s c r)
unfolding who_room
who_room-OnlyLinks s c none = send_system-OnlyLinks s c _
who_room-OnlyLinks s c (some room) = send_system-OnlyLinks s c _

send_rooms-OnlyLinks : (s : Server) (c : ℕ) (l : List Summary) → OnlyLinks s (send_rooms s c l)
unfolding send_rooms
send_rooms-OnlyLinks s c [] = send_system-OnlyLinks s c _
send_rooms-OnlyLinks s c (r ∷ l) = send-OnlyLinks s c _

if-OnlyLinks :
    (s : Server) (b : Bool) (x y : Server)
    → OnlyLinks s x
    → OnlyLinks s y
    → OnlyLinks s (if b then x else y)
if-OnlyLinks s true x y h k = h
if-OnlyLinks s false x y h k = k

tell_topic-OnlyLinks : (s : Server) (c : ℕ) (r : Room) → OnlyLinks s (tell_topic s c r)
unfolding tell_topic
tell_topic-OnlyLinks s c r =
    if-OnlyLinks s (is_nil r.topic) _ _ (send_system-OnlyLinks s c _) (send_system-OnlyLinks s c _)

send_history-OnlyLinks :
    (s : Server) (c : ℕ) (name : Text) (l : List Text) → OnlyLinks s (send_history s c name l)
unfolding send_history
send_history-OnlyLinks s c name [] = send_system-OnlyLinks s c _
send_history-OnlyLinks s c name (x ∷ l) =
    OnlyLinks-trans (send_system-OnlyLinks s c _) (send_lines-OnlyLinks _ c name (x ∷ l))

history_of-OnlyLinks :
    (s : Server) (c room : ℕ) (n : Option ℤ) → OnlyLinks s (history_of s c room n)
unfolding history_of
history_of-OnlyLinks s c room none = send_system-OnlyLinks s c _
history_of-OnlyLinks s c room (some n) = send_history-OnlyLinks s c _ _

cmd_history-OnlyLinks : (s : Server) (c : ℕ) (args : Text) → OnlyLinks s (cmd_history s c args)
unfolding cmd_history
cmd_history-OnlyLinks s c args = elim (Option-cases (room_for_client s.reg c)) [
  | inl e ↦ rw (e, cmd_history) (send_system-OnlyLinks s c _)
  | inr (r, e) ↦ rw (e, cmd_history) (history_of-OnlyLinks s c r _)
]

module _ ⦃u : Unicode⦄ where
  cmd_who-OnlyLinks : (s : Server) (c : ℕ) (args : Text) → OnlyLinks s (cmd_who s c args)
  unfolding cmd_who
  cmd_who-OnlyLinks s c args =
      if-OnlyLinks s _ _ _ (send_system-OnlyLinks s c _) (who_room-OnlyLinks s c _)

  deliver-OnlyLinks :
      (s : Server) (c : ℕ) (text : Text) (t : Option ℕ) → OnlyLinks s (deliver s c text t)
  unfolding deliver
  deliver-OnlyLinks s c text none = send_system-OnlyLinks s c _
  deliver-OnlyLinks s c text (some t) =
      if-OnlyLinks s _ _ _ (send_system-OnlyLinks s c _)
        (OnlyLinks-trans (send-OnlyLinks s t _) (send-OnlyLinks _ c _))

  msg_to-OnlyLinks :
      (s : Server) (c : ℕ) (args : Text) (l : List Text) → OnlyLinks s (msg_to s c args l)
  unfolding msg_to msg_usage direct_message
  msg_to-OnlyLinks s c args [] = send_system-OnlyLinks s c _
  msg_to-OnlyLinks s c args (t ∷ []) = send_system-OnlyLinks s c _
  msg_to-OnlyLinks s c args (t ∷ w ∷ l) =
      let message = trim_space (drop_bytes (byte_len t) args) in
      if-OnlyLinks s (is_nil (trim_space message)) _ _ (send_system-OnlyLinks s c _)
        (deliver-OnlyLinks s c message (lookup (to_lower t) s.names))

  after_take-IsSound :
      (s : Server) (c : ℕ) (name : Text) (r : Option Registry)
      → IsSound s
      → IsOnline s.reg c
      → take_name s.reg c (client_name s.reg c) name ≡ r
      → IsSound (after_take s c name r)
  unfolding after_take finish_nick renamed
  after_take-IsSound s c name none v on h = OnlyLinks-IsSound (send_system-OnlyLinks s c _) v
  after_take-IsSound s c name (some g) v on h =
      let (free, e) = take_name-renamed s.reg c name g h in
      OnlyLinks-IsSound
        (OnlyLinks-trans (send_system-OnlyLinks _ c _) (broadcast?-OnlyLinks _ _ _ (some c)))
        (record {
          inv = rw e (renamed-Inv s.reg c name v.inv on free);
          counted = v.counted ∙ ap (λ r. r.next_client) (sym e);
        })

  nick_valid-IsSound :
      (s : Server) (c : ℕ) (r : Result Text)
      → IsSound s
      → IsOnline s.reg c
      → IsSound (nick_valid s c r)
  unfolding nick_valid
  nick_valid-IsSound s c (err e) v on = OnlyLinks-IsSound (send_system-OnlyLinks s c _) v
  nick_valid-IsSound s c (ok name) v on = after_take-IsSound s c name _ v on refl

  if-IsSound : (b : Bool) (x y : Server) → IsSound x → IsSound y → IsSound (if b then x else y)
  if-IsSound true x y h k = h
  if-IsSound false x y h k = k

  post_message-IsSound :
      (s : Server) (c : ℕ) (text : Text) → IsSound s → IsSound (post_message s c text)
  unfolding post_message
  post_message-IsSound s c text v = elim (Option-cases (room_for_client s.reg c)) [
    | inl e ↦ rw (e, post_message) (OnlyLinks-IsSound (send_system-OnlyLinks s c _) v)
    | inr (r, e) ↦ rw (e, post_message) (broadcast-IsSound s r _ true none v)
  ]

  cmd_action-IsSound :
      (s : Server) (c : ℕ) (args : Text) → IsSound s → IsSound (cmd_action s c args)
  unfolding cmd_action
  cmd_action-IsSound s c args v = elim (Bool-cases (is_nil (trim_space args))) [
    | inl b ↦ rw b (OnlyLinks-IsSound (send_system-OnlyLinks s c _) v)
    | inr b ↦ elim (Option-cases (room_for_client s.reg c)) [
      | inl e ↦ rw (b, e, cmd_action) (OnlyLinks-IsSound (send_system-OnlyLinks s c _) v)
      | inr (r, e) ↦ rw (b, e, cmd_action) (broadcast-IsSound s r _ true none v)
    ]
  ]

  change_topic-IsSound :
      (s : Server) (c room : ℕ) (args : Text) → IsSound s → IsSound (change_topic s c room args)
  unfolding change_topic set_topic put_room
  change_topic-IsSound s c room args v = broadcast-IsSound _ room _ false none (record {
    inv = put_room-Inv s.reg room (set_topic (s.room_at room) args).0 v.inv refl refl;
    counted = v.counted;
  })

  cmd_topic-IsSound : (s : Server) (c : ℕ) (args : Text) → IsSound s → IsSound (cmd_topic s c args)
  unfolding cmd_topic
  cmd_topic-IsSound s c args v = elim (Option-cases (room_for_client s.reg c)) [
    | inl e ↦ rw (e, cmd_topic) (OnlyLinks-IsSound (send_system-OnlyLinks s c _) v)
    | inr (r, e) ↦
        rw (e, cmd_topic)
          (if-IsSound (is_nil (trim_space args)) _ _
            (OnlyLinks-IsSound (tell_topic-OnlyLinks s c (s.room_at r)) v)
            (change_topic-IsSound s c r args v))
  ]

  execute-IsSound :
      (s : Server) (c : ℕ) (cmd : Command) (args : Text)
      → IsSound s
      → IsOnline s.reg c
      → IsSound (execute s c cmd args)
  unfolding execute cmd_nick cmd_rooms cmd_msg
  execute-IsSound s c Command.help args v on = OnlyLinks-IsSound (send_system-OnlyLinks s c _) v
  execute-IsSound s c Command.nick args v on =
      if-IsSound (is_nil (trim_space args)) _ _ (OnlyLinks-IsSound (send_system-OnlyLinks s c _) v)
        (nick_valid-IsSound s c _ v on)
  execute-IsSound s c Command.who args v on = OnlyLinks-IsSound (cmd_who-OnlyLinks s c args) v
  execute-IsSound s c Command.rooms args v on = OnlyLinks-IsSound (send_rooms-OnlyLinks s c _) v
  execute-IsSound s c Command.join_cmd args v on = join_room-IsSound s c args true v on
  execute-IsSound s c Command.leave args v on = join_room-IsSound s c _ true v on
  execute-IsSound s c Command.msg args v on = OnlyLinks-IsSound (msg_to-OnlyLinks s c args _) v
  execute-IsSound s c Command.topic args v on = cmd_topic-IsSound s c args v
  execute-IsSound s c Command.history args v on =
      OnlyLinks-IsSound (cmd_history-OnlyLinks s c args) v
  execute-IsSound s c Command.me args v on = cmd_action-IsSound s c args v
  execute-IsSound s c Command.quit args v on =
      let o = send_system-OnlyLinks s c _ in
      shutdown-IsSound _ c _ (OnlyLinks-IsSound o v) (inr (rw o.reg on))
  execute-IsSound s c Command.whoami args v on = OnlyLinks-IsSound (send_system-OnlyLinks s c _) v
  execute-IsSound s c Command.ping args v on = OnlyLinks-IsSound (send_system-OnlyLinks s c _) v
  execute-IsSound s c Command.unknown args v on = OnlyLinks-IsSound (send_system-OnlyLinks s c _) v

  run_command-IsSound :
      (s : Server) (c : ℕ) (p : Text × Text)
      → IsSound s
      → IsOnline s.reg c
      → IsSound (run_command s c p)
  unfolding run_command execute_command
  run_command-IsSound s c (cmd, args) v on =
      if-IsSound (is_nil cmd) _ _ v (execute-IsSound s c (command_of cmd) args v on)

  -- So does every line of input of an online client.
  pub handle_input-IsSound :
      (s : Server) (c : ℕ) (line : Text)
      → IsSound s
      → IsOnline s.reg c
      → IsSound (handle_input s c line)
  unfolding handle_input
  handle_input-IsSound s c line v on = if-IsSound (is_nil (trim_space line)) _ _ v (
      if-IsSound (has_slash (trim_space line)) _ _
        (run_command-IsSound s c (parse_command (trim_space line)) v on)
        (post_message-IsSound s c (trim_space line) v))
