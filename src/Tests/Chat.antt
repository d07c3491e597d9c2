-- ===== src/Tests/Chat.antt =====
-- Histories of the chat server over ASCII texts.
use mathlib.Core.List.{Perm}
use livechat_server.Chat.Commands.Listings.{AreInOrder, room_summaries_ordered}
use livechat_server.Base.{
  map, values, ◌≡◌, refl, List, [], ◌∷◌, codes, arith, lookup, insert, delete, text_eq, update,
  some, all, keep_if, none, true, ◌↔◌, if◌then◌else◌, ◌&&◌,
}
use livechat_server.Strings.{
  is_space, byte_len, trim_left, trim_right, trim_space, trim_line_end, split_space, to_lower,
  equal_fold,
}
use livechat_server.Strings.Ascii.{ascii}
use livechat_server.Strings.Decimal.{dec, dec4}
use livechat_server.Chat.Config.{default_config, with_defaults}
use livechat_server.Chat.Util.{
  first_bad, normalize_room_key, sanitize_room_name, sanitize_user_name, parse_command,
}
use livechat_server.Chat.Room.{
  not_excluded, new_room, add_member, remove_member, member_count, is_empty, members_snapshot,
  append_history, recent_history,
}
use livechat_server.Chat.Client.{
  new_client, send_link, close_link, set_client_name, set_room, client_id, guest_name,
}
use livechat_server.Chat.Registry.{
  Registry, client_name, alloc_client, put_client, put_room, room_for_client, add_client,
  drop_if_empty, unregister, create_room, get_or_create_room, switch_room, move_client_room,
  cleanup_room, take_name,
}
use livechat_server.Chat.Server.{
  room_line, Server, new_server, send, send_system, send_each, broadcast_room, broadcast_room?,
  send_lines, remove_client, shutdown, greet, enter_room, join_room, start, handle_conn,
}
use livechat_server.Chat.Commands.{
  summary, room_summaries, command_of, post_message, finish_nick, cmd_nick, execute,
  execute_command, handle_input,
}
use livechat_server.Chat.Session.{Event, connects, reads, step, run}
use livechat_server.Chat.Session.Histories.{
  AreOrderly, run-IsSound, new_server-IsSound, names-IsOnline, one_room,
}
use livechat_server.Chat.Server.Sound.{IsSound}
use livechat_server.Chat.Server.Delivery.{broadcast_delivers, is_member}
use livechat_server.Chat.Commands.Messages.{msg_line}
use livechat_server.Chat.Session.Ghosts.{ghost_name, ghost_nick}
use livechat_server.Chat.Registry.Invariant.{IsOnline}

-- Two sessions start, the second takes a name and leaves the lobby.
abbrev talk : List Event
talk =
    connects
    ∷ connects
    ∷ reads 1 (codes "/nick Alice")
    ∷ reads 0 (codes "hi all")
    ∷ reads 1 (codes "/join Go Lang")
    ∷ []

after_talk : Server
unfolding new_server with_defaults step run handle_conn client_id guest_name dec dec4 alloc_client
    new_client add_client lookup insert text_eq update to_lower start join_room send_system send
    trim_line_end trim_right trim_left trim_space sanitize_room_name byte_len first_bad is_space
    enter_room move_client_room normalize_room_key get_or_create_room create_room new_room
    switch_room room_for_client put_room put_client add_member remove_member set_room delete greet
    member_count recent_history send_link broadcast_room members_snapshot send_each keep_if
    cleanup_room drop_if_empty is_empty equal_fold send_lines handle_input parse_command split_space
    execute_command command_of execute cmd_nick sanitize_user_name take_name finish_nick
    set_client_name broadcast_room? post_message append_history
after_talk = run ⦃u = ascii⦄ (new_server default_config) talk

-- What the first session is told.
told_first :
    (after_talk.link_at 0).buffer
    ≡ codes "[livechat] Welcome to livechat! Type /help for commands."
      ∷ codes "[livechat] Joined #lobby (1 users)"
      ∷ codes "[lobby] guest-0002 joined the room"
      ∷ codes "[lobby] guest-0002 is now known as Alice"
      ∷ codes "[lobby] guest-0001: hi all"
      ∷ codes "[lobby] Alice left the room"
      ∷ []
unfolding after_talk
told_first = refl

orderly : AreOrderly ⦃u = ascii⦄ (new_server default_config) talk
unfolding after_talk
orderly = (omega arith, (omega arith, (refl, (refl, (refl, tt)))))

after_talk-IsSound : IsSound ⦃u = ascii⦄ after_talk
unfolding after_talk
after_talk-IsSound =
    run-IsSound ⦃u = ascii⦄ (new_server default_config) talk
      (new_server-IsSound ⦃u = ascii⦄ default_config) orderly

go_lang_here : lookup (codes "go lang") after_talk.rooms ≡ some 1
unfolding after_talk
go_lang_here = refl

abbrev end : Registry
end = (run ⦃u = ascii⦄ (new_server default_config) talk).reg

names-IsOnline_example :
    (lookup (codes "alice") end.names ≡ some 1)
    ↔ (IsOnline end 1 × (codes "alice" ≡ to_lower ⦃u = ascii⦄ (client_name end 1)))
names-IsOnline_example = names-IsOnline ⦃u = ascii⦄ default_config talk orderly (codes "alice") 1

one_room_example :
    (codes "go lang" ≡ codes "go lang")
    × (codes "client-2" ≡ codes "client-2")
    × (codes "go lang" ≡ (end.client_at 1).room_key)
    × IsOnline end 1
unfolding after_talk
one_room_example =
    one_room ⦃u = ascii⦄ default_config talk orderly (codes "go lang") (codes "go lang")
      (codes "client-2") (codes "client-2") 1 refl refl

broadcast_delivers_example : (broadcast_room after_talk 1 (codes "hey") true none).link_at 1 ≡ (
    if is_member after_talk.reg 1 1 && not_excluded none 1
    then send_link after_talk.cfg.send_buffer_size
        (after_talk.link_at 1)
        (room_line (after_talk.room_at 1).name (codes "hey"))
    else after_talk.link_at 1)
broadcast_delivers_example =
    broadcast_delivers ⦃u = ascii⦄ after_talk (codes "go lang") 1 (codes "hey") true none 1
      after_talk-IsSound go_lang_here

msg_line_example :
    handle_input ⦃u = ascii⦄ after_talk 0 (codes "/msg ALICE  see you ")
    ≡ send
        (send after_talk 1 (codes "[dm] guest-0001 → you: see you"))
        0
        (codes "[dm] you → Alice: see you")
unfolding after_talk all
msg_line_example =
    msg_line ⦃u = ascii⦄ after_talk 0 1 (codes "ALICE") (codes " see you ") after_talk-IsSound refl
      (record { trimmed = refl; long = omega arith; short = omega arith; chars = refl }) refl
      (λ e. cc e)

-- The first session has ended, and its reader holds one more line.
after_quit : Server
unfolding after_talk shutdown close_link remove_client unregister
after_quit = step ⦃u = ascii⦄ after_talk (reads 0 (codes "/quit"))

ghost_name_example :
    let t = step ⦃u = ascii⦄ after_quit (reads 0 (codes "/nick casper")) in
    (lookup (to_lower ⦃u = ascii⦄ (codes "casper")) t.names ≡ some 0) × ¬ IsOnline t.reg 0
unfolding after_quit all
ghost_name_example =
    ghost_name ⦃u = ascii⦄ after_quit 0 (codes "casper")
      (record { trimmed = refl; long = omega arith; short = omega arith; chars = refl }) refl refl

abbrev half_renamed : Registry
half_renamed = record end { names = insert (codes "bob") 0 (delete (codes "guest-0001") end.names) }

ghost_nick_example :
    let h = (unregister ⦃u = ascii⦄ (codes "lobby") half_renamed 0).0 in
    (lookup (to_lower ⦃u = ascii⦄ (codes "Bob")) h.names ≡ some 0) × ¬ IsOnline h 0
unfolding after_talk
ghost_nick_example =
    ghost_nick ⦃u = ascii⦄ (codes "lobby") end half_renamed 0 (codes "Bob") (λ e. cc e) refl

room_summaries_ordered_example :
    AreInOrder (room_summaries after_talk.reg)
    × Perm
        (room_summaries after_talk.reg)
        (map (λ room. summary (after_talk.reg.room_at room)) (values after_talk.reg.rooms))
room_summaries_ordered_example = room_summaries_ordered after_talk.reg
