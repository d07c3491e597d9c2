-- ===== src/Chat/Commands/Messages.antt =====
-- What a message, a private message and a new name do, from the line that is typed.
use livechat_server.Base.{
  ℕ, ◌≡◌, ◌≢◌, refl, sym, ◌∙◌, true, false, List, [], ◌∷◌, ◌++◌, Text, codes, arith, all, is_nil,
  text_eq, ap,
}
use livechat_server.Strings.{
  Unicode, trim_space, trim_left, trim_right, is_space, to_lower, fields, fields_from, byte_len,
}
use livechat_server.Strings.Ascii.{to_lower_same}
use livechat_server.Strings.Trim.{
  trim_space_idem, trim_right_cons, trim_space-nil, trim_space-trim_right,
}
use livechat_server.Strings.Words.{not_space, fields-append, drop_bytes-append}
use livechat_server.Chat.Util.{name_char, parse_command}
use livechat_server.Chat.Util.Names.{IsUserName}
use livechat_server.Chat.Registry.{client_name}
use livechat_server.Chat.Registry.Invariant.{IsOnline}
use livechat_server.Chat.Server.{Server, send}
use livechat_server.Chat.Server.Sound.{IsSound}
use livechat_server.Chat.Util.Commands.{parse_command_line, trim_right-append, blank_cons}
use livechat_server.Chat.Commands.{
  Command, command_of, cmd_msg, msg_to, deliver, direct_message, execute, execute_command,
  run_command, handle_input,
}

-- A text with no word is white space.
fields-nil : (s : Text) → fields s ≡ [] → trim_left is_space s ≡ []
unfolding fields fields_from trim_left
fields-nil [] h = refl
fields-nil (c ∷ s) h = ground (arith, fields-nil s)

module _ ⦃u : Unicode⦄ where
  name_char_not_space : (c : ℕ) → name_char c ≡ true → is_space c ≡ false
  unfolding is_space
  name_char_not_space c h = ground (arith, u.is_space_of_letter c, u.is_space_of_digit c)

  pub all-not_space : (s : Text) → all name_char s ≡ true → all not_space s ≡ true
  unfolding all
  all-not_space [] h = refl
  all-not_space (c ∷ s) h = ground (arith, name_char_not_space c, all-not_space s)

  trim_space-blank : (s : Text) → trim_space (32 ∷ s) ≡ trim_space s
  unfolding trim_space trim_left is_space
  trim_space-blank s = refl

  msg_to-direct_message :
      (s : Server) (c : ℕ) (name text : Text) (l : List Text)
      → fields text ≡ l
      → trim_space text ≢ []
      → msg_to s c (name ++ 32 ∷ text) (name ∷ l) ≡ direct_message s c name (trim_space text)
  unfolding msg_to
  msg_to-direct_message s c name text [] h ne =
      absurd (ne (unfold trim_space trim_right in rw (fields-nil text h)))
  msg_to-direct_message s c name text (w ∷ l) h ne =
      rw (drop_bytes-append name (32 ∷ text), trim_space-blank text, trim_space_idem text)
        (rw (filled (trim_space text) ne) refl)
    where
      filled : (t : Text) → t ≢ [] → is_nil t ≡ false
      filled [] h = absurd (h refl)
      filled (x ∷ t) h = refl

  -- `/msg name text` sends the trimmed text to the client under that name, for every name that the
  -- rules for names accept and every text that is not blank.
  pub cmd_msg-direct_message :
      (s : Server) (c : ℕ) (name text : Text)
      → IsUserName name
      → trim_space text ≢ []
      → cmd_msg s c (name ++ 32 ∷ text) ≡ direct_message s c name (trim_space text)
  unfolding cmd_msg
  cmd_msg-direct_message s c [] text n ne = absurd (unfold byte_len in omega (arith, n.long))
  cmd_msg-direct_message s c (d ∷ name) text n ne =
      rw (fields-append d name text (all-not_space (d ∷ name) n.chars))
        (msg_to-direct_message s c (d ∷ name) text (fields text) refl ne)

  parse_command-trim : (raw : Text) → parse_command (trim_space raw) ≡ parse_command raw
  unfolding parse_command
  parse_command-trim raw = rw (trim_space_idem raw)

  trim_space-slash : (s : Text) → trim_space (b'/' ∷ s) ≡ b'/' ∷ trim_right is_space s
  unfolding trim_space trim_left is_space
  trim_space-slash s = trim_right_cons is_space b'/' s refl

  lower-filled : (s : Text) → s ≢ [] → is_nil (to_lower s) ≡ false
  unfolding to_lower
  lower-filled [] h = absurd (h refl)
  lower-filled (c ∷ s) h = refl

  -- A line that is a slash, a word, a blank and arguments runs the command of that word, in lower
  -- case, on the trimmed arguments.
  pub handle_input-command :
      (s : Server) (c : ℕ) (cmd args : Text)
      → all not_space cmd ≡ true
      → cmd ≢ []
      → handle_input s c (b'/' ∷ (cmd ++ 32 ∷ args))
        ≡ execute_command s c (to_lower cmd) (trim_space args)
  unfolding handle_input run_command
  handle_input-command s c cmd args h ne =
      rw
        (
          parse_command-trim (b'/' ∷ (cmd ++ 32 ∷ args)),
          parse_command_line cmd args h,
          trim_space-slash (cmd ++ 32 ∷ args),
        )
        (rw (lower-filled cmd ne) refl)

  trimmed_args :
      (name text tail : Text)
      → all not_space name ≡ true
      → trim_right is_space text ≡ tail
      → trim_space text ≢ []
      → trim_right is_space (name ++ 32 ∷ text) ≡ name ++ 32 ∷ tail
  trimmed_args name text [] h e ne = absurd (ne (trim_space-nil text e))
  trimmed_args name text (d ∷ tail) h e ne =
      trim_right-append name (32 ∷ text) h ∙ ap (◌++◌ name) (blank_cons text d tail e)

  trim_space_word :
      (d : ℕ) (name text : Text)
      → all not_space (d ∷ name) ≡ true
      → trim_space text ≢ []
      → trim_space ((d ∷ name) ++ 32 ∷ text) ≡ (d ∷ name) ++ 32 ∷ trim_right is_space text
  unfolding trim_space trim_left all
  trim_space_word d name text h ne =
      let bare : is_space d ≡ false = ground arith in
      rw bare (trimmed_args (d ∷ name) text _ h refl ne)

  msg_command : command_of (to_lower (codes "msg")) ≡ Command.msg
  msg_command =
      rw (to_lower_same (codes "msg") (unfold all in refl)) (unfold command_of text_eq in refl)

  execute_command-msg :
      (s : Server) (c : ℕ) (args : Text)
      → execute_command s c (to_lower (codes "msg")) args ≡ cmd_msg s c args
  unfolding execute_command execute
  execute_command-msg s c args = rw msg_command

  -- The two lines of a private message.
  abbrev pub dm_to : Server → ℕ → Text → Text
  dm_to s from text = codes "[dm] " ++ (client_name s.reg from ++ (codes " → you: " ++ text))

  abbrev pub dm_from : Server → ℕ → Text → Text
  dm_from s target text = codes "[dm] you → " ++ (client_name s.reg target ++ (codes ": " ++ text))

  direct_message-online :
      (s : Server) (c t : ℕ) (name text : Text)
      → IsSound s
      → IsOnline s.reg t
      → to_lower name ≡ to_lower (client_name s.reg t)
      → trim_space text ≢ []
      → direct_message s c name (trim_space text)
        ≡ send (send s t (dm_to s c (trim_space text))) c (dm_from s t (trim_space text))
  unfolding direct_message deliver
  direct_message-online s c t name text v on same ne =
      rw (same, v.inv.online_named t on, trim_space_idem text)
        (rw (filled (trim_space text) ne) refl)
    where
      filled : (t : Text) → t ≢ [] → is_nil t ≡ false
      filled [] h = absurd (h refl)
      filled (x ∷ t) h = refl

  -- The line `/msg name text` of a client reaches the online client that has the name, up to case,
  -- and comes back to the sender, for every name that the rules for names accept and every text
  -- that is not blank.
  pub msg_line :
      (s : Server) (c t : ℕ) (name text : Text)
      → IsSound s
      → IsOnline s.reg t
      → IsUserName name
      → to_lower name ≡ to_lower (client_name s.reg t)
      → trim_space text ≢ []
      → handle_input s c (b'/' ∷ (codes "msg" ++ 32 ∷ (name ++ 32 ∷ text)))
        ≡ send (send s t (dm_to s c (trim_space text))) c (dm_from s t (trim_space text))
  msg_line s c t [] text v on n same ne = absurd (unfold byte_len in omega (arith, n.long))
  msg_line s c t (d ∷ name) text v on n same ne =
      handle_input-command s c (codes "msg") ((d ∷ name) ++ 32 ∷ text) (unfold all is_space in refl)
        (cc)
      ∙ execute_command-msg s c _
      ∙ ap (cmd_msg s c) (trim_space_word d name text (all-not_space (d ∷ name) n.chars) ne)
      ∙ cmd_msg-direct_message s c (d ∷ name) (trim_right is_space text) n
          (λ e. ne (sym (trim_space-trim_right text) ∙ e))
      ∙ ap (direct_message s c (d ∷ name)) (trim_space-trim_right text)
      ∙ direct_message-online s c t (d ∷ name) text v on same ne
