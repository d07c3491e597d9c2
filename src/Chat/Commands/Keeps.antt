-- ===== src/Chat/Commands/Keeps.antt =====
-- A property of the server that sending, every change of its tables and the closing of a session keep
-- is kept by every command.
use livechat_server.Base.{
  ℕ, true, false, List, [], ◌∷◌, Text, Option, none, some, inl, inr, is_nil, Option-cases, lookup,
  ℤ,
}
use livechat_server.Strings.{Unicode, trim_space, drop_bytes, byte_len, to_lower}
use livechat_server.Chat.Util.{Result, ok, err, parse_command}
use livechat_server.Chat.Room.{Room}
use livechat_server.Chat.Registry.{Registry, room_for_client}
use livechat_server.Chat.Server.{Server}
use livechat_server.Chat.Server.Keeps.{
  IsKept, if_keeps, send_system_keeps, send_lines_keeps, broadcast_keeps, broadcast?_keeps,
  shutdown_keeps, join_room_keeps,
}
use livechat_server.Chat.Commands.{
  Command, command_of, post_message, cmd_action, finish_nick, after_take, nick_valid, cmd_nick,
  who_room, cmd_who, send_rooms, cmd_rooms, deliver, direct_message, msg_usage, msg_to, cmd_msg,
  change_topic, tell_topic, cmd_topic, send_history, history_of, cmd_history, execute,
  execute_command, run_command, handle_input, Summary,
}

module _ (Q : Server → Type 0) (kept : IsKept Q) where
  who_room_keeps : (s : Server) (c : ℕ) (r : Option ℕ) → Q s → Q (who_room s c r)
  unfolding who_room
  who_room_keeps s c none q = send_system_keeps Q kept s c _ q
  who_room_keeps s c (some room) q = send_system_keeps Q kept s c _ q

  send_rooms_keeps : (s : Server) (c : ℕ) (l : List Summary) → Q s → Q (send_rooms s c l)
  unfolding send_rooms
  send_rooms_keeps s c [] q = send_system_keeps Q kept s c _ q
  send_rooms_keeps s c (r ∷ l) q = kept.sends c _ s q

  tell_topic_keeps : (s : Server) (c : ℕ) (r : Room) → Q s → Q (tell_topic s c r)
  unfolding tell_topic
  tell_topic_keeps s c r q =
      if_keeps Q kept _ _ _ (send_system_keeps Q kept s c _ q) (send_system_keeps Q kept s c _ q)

  send_history_keeps :
      (s : Server) (c : ℕ) (name : Text) (l : List Text) → Q s → Q (send_history s c name l)
  unfolding send_history
  send_history_keeps s c name [] q = send_system_keeps Q kept s c _ q
  send_history_keeps s c name (x ∷ l) q =
      send_lines_keeps Q kept (x ∷ l) _ c name (send_system_keeps Q kept s c _ q)

  history_of_keeps : (s : Server) (c room : ℕ) (n : Option ℤ) → Q s → Q (history_of s c room n)
  unfolding history_of
  history_of_keeps s c room none q = send_system_keeps Q kept s c _ q
  history_of_keeps s c room (some n) q = send_history_keeps s c _ _ q

  cmd_history_keeps : (s : Server) (c : ℕ) (args : Text) → Q s → Q (cmd_history s c args)
  unfolding cmd_history
  cmd_history_keeps s c args q = elim (Option-cases (room_for_client s.reg c)) [
    | inl e ↦ rw (e, cmd_history) (send_system_keeps Q kept s c _ q)
    | inr (r, e) ↦ rw (e, cmd_history) (history_of_keeps s c r _ q)
  ]

  change_topic_keeps :
      (s : Server) (c room : ℕ) (args : Text) → Q s → Q (change_topic s c room args)
  unfolding change_topic
  change_topic_keeps s c room args q = broadcast_keeps Q kept _ room _ false none (kept.moves _ s q)

  cmd_topic_keeps : (s : Server) (c : ℕ) (args : Text) → Q s → Q (cmd_topic s c args)
  unfolding cmd_topic
  cmd_topic_keeps s c args q = elim (Option-cases (room_for_client s.reg c)) [
    | inl e ↦ rw (e, cmd_topic) (send_system_keeps Q kept s c _ q)
    | inr (r, e) ↦
        rw (e, cmd_topic)
          (if_keeps Q kept (is_nil (trim_space args)) _ _ (tell_topic_keeps s c (s.room_at r) q)
            (change_topic_keeps s c r args q))
  ]

  post_message_keeps : (s : Server) (c : ℕ) (text : Text) → Q s → Q (post_message s c text)
  unfolding post_message
  post_message_keeps s c text q = elim (Option-cases (room_for_client s.reg c)) [
    | inl e ↦ rw (e, post_message) (send_system_keeps Q kept s c _ q)
    | inr (r, e) ↦ rw (e, post_message) (broadcast_keeps Q kept s r _ true none q)
  ]

  act_keeps : (s : Server) (c : ℕ) (args : Text) → Q s → Q (cmd_action s c args)
  unfolding cmd_action
  act_keeps s c args q =
      if_keeps Q kept (is_nil (trim_space args)) _ _ (send_system_keeps Q kept s c _ q)
        (elim (Option-cases (room_for_client s.reg c)) [
          | inl e ↦ rw e (send_system_keeps Q kept s c _ q)
          | inr (r, e) ↦ rw e (broadcast_keeps Q kept s r _ true none q)
        ])

  module _ ⦃u : Unicode⦄ where
    cmd_who_keeps : (s : Server) (c : ℕ) (args : Text) → Q s → Q (cmd_who s c args)
    unfolding cmd_who
    cmd_who_keeps s c args q =
        if_keeps Q kept _ _ _ (send_system_keeps Q kept s c _ q) (who_room_keeps s c _ q)

    deliver_keeps : (s : Server) (c : ℕ) (text : Text) (t : Option ℕ) → Q s → Q (deliver s c text t)
    unfolding deliver
    deliver_keeps s c text none q = send_system_keeps Q kept s c _ q
    deliver_keeps s c text (some t) q =
        if_keeps Q kept _ _ _ (send_system_keeps Q kept s c _ q)
          (kept.sends c _ _ (kept.sends t _ s q))

    msg_to_keeps : (s : Server) (c : ℕ) (args : Text) (l : List Text) → Q s → Q (msg_to s c args l)
    unfolding msg_to msg_usage direct_message
    msg_to_keeps s c args [] q = send_system_keeps Q kept s c _ q
    msg_to_keeps s c args (t ∷ []) q = send_system_keeps Q kept s c _ q
    msg_to_keeps s c args (t ∷ w ∷ l) q =
        let message = trim_space (drop_bytes (byte_len t) args) in
        if_keeps Q kept (is_nil (trim_space message)) _ _ (send_system_keeps Q kept s c _ q)
          (deliver_keeps s c message (lookup (to_lower t) s.names) q)

    after_take_keeps :
        (s : Server) (c : ℕ) (name : Text) (r : Option Registry) → Q s → Q (after_take s c name r)
    unfolding after_take finish_nick
    after_take_keeps s c name none q = send_system_keeps Q kept s c _ q
    after_take_keeps s c name (some g) q =
        broadcast?_keeps Q kept _ _ _ false (some c)
          (send_system_keeps Q kept _ c _ (kept.moves _ _ (kept.moves g s q)))

    nick_valid_keeps : (s : Server) (c : ℕ) (r : Result Text) → Q s → Q (nick_valid s c r)
    unfolding nick_valid
    nick_valid_keeps s c (err e) q = send_system_keeps Q kept s c _ q
    nick_valid_keeps s c (ok name) q = after_take_keeps s c name _ q

    execute_keeps :
        (s : Server) (c : ℕ) (cmd : Command) (args : Text) → Q s → Q (execute s c cmd args)
    unfolding execute cmd_nick cmd_rooms cmd_msg
    execute_keeps s c Command.nick args q =
        if_keeps Q kept _ _ _ (send_system_keeps Q kept s c _ q) (nick_valid_keeps s c _ q)
    execute_keeps s c Command.who args q = cmd_who_keeps s c args q
    execute_keeps s c Command.rooms args q = send_rooms_keeps s c _ q
    execute_keeps s c Command.join_cmd args q = join_room_keeps Q kept s c args true q
    execute_keeps s c Command.leave args q = join_room_keeps Q kept s c _ true q
    execute_keeps s c Command.msg args q = msg_to_keeps s c args _ q
    execute_keeps s c Command.topic args q = cmd_topic_keeps s c args q
    execute_keeps s c Command.history args q = cmd_history_keeps s c args q
    execute_keeps s c Command.me args q = act_keeps s c args q
    execute_keeps s c Command.quit args q =
        shutdown_keeps Q kept _ c _ (send_system_keeps Q kept s c _ q)
    execute_keeps s c Command.help args q = send_system_keeps Q kept s c _ q
    execute_keeps s c Command.whoami args q = send_system_keeps Q kept s c _ q
    execute_keeps s c Command.ping args q = send_system_keeps Q kept s c _ q
    execute_keeps s c Command.unknown args q = send_system_keeps Q kept s c _ q

    run_command_keeps : (s : Server) (c : ℕ) (p : Text × Text) → Q s → Q (run_command s c p)
    unfolding run_command execute_command
    run_command_keeps s c (cmd, args) q =
        if_keeps Q kept _ _ _ q (execute_keeps s c (command_of cmd) args q)

    pub handle_input_keeps : (s : Server) (c : ℕ) (line : Text) → Q s → Q (handle_input s c line)
    unfolding handle_input
    handle_input_keeps s c line q = if_keeps Q kept _ _ _ q (
        if_keeps Q kept _ _ _ (run_command_keeps s c (parse_command (trim_space line)) q)
          (post_message_keeps s c (trim_space line) q))
