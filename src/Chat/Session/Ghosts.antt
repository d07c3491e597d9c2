-- ===== src/Chat/Session/Ghosts.antt =====
-- What goes wrong around the end of a session: lines that the reader still holds, and a shutdown
-- between the two halves of a change of name.
use livechat_server.Base.{
  ℕ, ◌≤◌, update, ◌≡◌, ◌≢◌, refl, sym, ◌∙◌, false, [], ◌∷◌, ◌++◌, Text, codes, Option, none, some,
  arith, all, lookup, is_nil, text_eq, text_eq_iff, delete, lookup-insert, lookup-delete, ap,
}
use livechat_server.Strings.{Unicode, is_space, to_lower, byte_len}
use livechat_server.Strings.Ascii.{to_lower_same}
use livechat_server.Chat.Util.Names.{IsUserName, sanitize_user_name_iff}
use livechat_server.Chat.Client.{set_client_name}
use livechat_server.Chat.Registry.{Registry, client_name, take_name, unregister, put_client}
use livechat_server.Chat.Registry.Invariant.{IsOnline}
use livechat_server.Chat.Registry.Exit.{exit-names, exit-clients, exit-client_at}
use livechat_server.Chat.Server.{Server}
use livechat_server.Chat.Server.Frames.{
  OnlyLinks-trans, send_system-OnlyLinks, broadcast?-OnlyLinks,
}
use livechat_server.Chat.Commands.{
  Command, command_of, execute, execute_command, cmd_nick, nick_valid, after_take, finish_nick,
  handle_input,
}
use livechat_server.Chat.Commands.Messages.{handle_input-command}
use livechat_server.Chat.Session.{reads, step}

module _ ⦃u : Unicode⦄ where
  nick_command : command_of (to_lower (codes "nick")) ≡ Command.nick
  nick_command =
      rw (to_lower_same (codes "nick") (unfold all in refl)) (unfold command_of text_eq in refl)

  finish_nick-tables :
      (s : Server) (c : ℕ) (old_name name : Text)
      → ((finish_nick s c old_name name).names ≡ s.names)
        × ((finish_nick s c old_name name).clients ≡ s.clients)
        × (((finish_nick s c old_name name).client_at c).id ≡ (s.client_at c).id)
  unfolding finish_nick put_client update set_client_name
  finish_nick-tables s c old_name name =
      let o = OnlyLinks-trans (send_system-OnlyLinks _ c _) (broadcast?-OnlyLinks _ _ _ (some c)) in
      (
        ap (λ g. g.names) o.reg,
        ap (λ g. g.clients) o.reg,
        ap (λ g. (g.client_at c).id) o.reg ∙ ground arith,
      )

  after_take-tables :
      (s : Server) (c : ℕ) (name : Text) (r : Option Registry)
      → take_name s.reg c (client_name s.reg c) name ≡ r
      → lookup (to_lower name) s.names ≡ none
      → (lookup (to_lower name) (after_take s c name r).names ≡ some c)
        × ((after_take s c name r).clients ≡ s.clients)
        × (((after_take s c name r).client_at c).id ≡ (s.client_at c).id)
  unfolding after_take take_name
  after_take-tables s c name none h free = ground arith
  after_take-tables s c name (some g) h free =
      let (names, clients, id) =
        finish_nick-tables (record s { reg = g }) c (client_name s.reg c) name in
      let old = delete (to_lower (client_name s.reg c)) s.names in
      (
        ground (
          arith,
          names,
          ap (λ m. lookup (to_lower name) m) names,
          lookup-insert (to_lower name) (to_lower name) c old,
          text_eq_iff (to_lower name) (to_lower name),
        ),
        ground (arith, clients),
        ground (arith, id),
      )

  cmd_nick-tables :
      (s : Server) (c : ℕ) (name : Text)
      → IsUserName name
      → lookup (to_lower name) s.names ≡ none
      → (lookup (to_lower name) (cmd_nick s c name).names ≡ some c)
        × ((cmd_nick s c name).clients ≡ s.clients)
        × (((cmd_nick s c name).client_at c).id ≡ (s.client_at c).id)
  unfolding cmd_nick nick_valid byte_len
  cmd_nick-tables s c name n free =
      rw (n.trimmed, filled name n.long, (sanitize_user_name_iff name name).1 (sym n.trimmed, n))
        (after_take-tables s c name _ refl free)
    where
      filled : (t : Text) → 3 ≤ byte_len t → is_nil t ≡ false
      filled [] h = absurd (omega arith)
      filled (x ∷ t) h = refl

  nick_line :
      (s : Server) (c : ℕ) (name : Text)
      → IsUserName name
      → handle_input s c (b'/' ∷ (codes "nick" ++ 32 ∷ name)) ≡ cmd_nick s c name
  unfolding execute_command execute
  nick_line s c name n =
      handle_input-command s c (codes "nick") name (unfold all is_space in refl) (cc)
      ∙ rw (nick_command, n.trimmed)

  -- A line `/nick name` that is still read from a client that is not online any more takes the
  -- name, if it is valid and free, for a client that is not online: it leads nowhere, and nobody
  -- else can have it.
  pub ghost_name :
      (s : Server) (c : ℕ) (name : Text)
      → IsUserName name
      → lookup (to_lower name) s.names ≡ none
      → lookup (s.client_at c).id s.clients ≡ none
      → let t = step s (reads c (b'/' ∷ (codes "nick" ++ 32 ∷ name))) in
        (lookup (to_lower name) t.names ≡ some c) × ¬ IsOnline t.reg c
  unfolding step
  ghost_name s c name n free out = rw (nick_line s c name n) (
      let (held, clients, id) = cmd_nick-tables s c name n free in
      (held, λ on. ground (arith, clients, id)))

  -- A shutdown that comes between the critical section of `cmdNick` and the write of the new name
  -- leaves the new name in the table, for a client that is not online any more.
  pub ghost_nick :
      (lobby : Text) (g g' : Registry) (c : ℕ) (name : Text)
      → to_lower name ≢ to_lower (client_name g c)
      → take_name g c (client_name g c) name ≡ some g'
      → let h = (unregister lobby g' c).0 in
        (lookup (to_lower name) h.names ≡ some c) × ¬ IsOnline h c
  unfolding take_name
  ghost_nick lobby g g' c name other taken = (
    ground (
      arith,
      exit-names lobby g' c,
      lookup-delete (to_lower (client_name g c)) (to_lower name) g'.names,
      text_eq_iff (to_lower (client_name g c)) (to_lower name),
      lookup-insert (to_lower name) (to_lower name) c (delete (to_lower (client_name g c)) g.names),
      text_eq_iff (to_lower name) (to_lower name),
    ),
    λ on. ground (
      arith,
      exit-clients lobby g' c,
      exit-client_at lobby g' c,
      lookup-delete (g.client_at c).id (g.client_at c).id g.clients,
      text_eq_iff (g.client_at c).id (g.client_at c).id,
    ),
  )
