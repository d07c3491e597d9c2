-- ===== src/Tests/Texts.antt =====
-- Texts, names, command lines and histories of rooms.
use livechat_server.Base.{◌≡◌, refl, [], ◌∷◌, codes, arith, all, ◌↔◌, pos}
use livechat_server.Strings.{is_space, byte_len, trim_left, trim_right, trim_space, to_lower}
use livechat_server.Strings.Ascii.{ascii}
use livechat_server.Chat.Util.{ok, normalize_room_key, sanitize_user_name, parse_command}
use livechat_server.Chat.Util.Names.{IsUserName, sanitize_user_name_iff}
use livechat_server.Chat.Util.Commands.{parse_command_line}
use livechat_server.Chat.Room.{new_room, recent_history}
use livechat_server.Chat.Room.History.{post_all, post_all-last_n, recent_history-post_all}

-- The cases of util_test.go.
parse_msg :
    parse_command ⦃u = ascii⦄ (codes " /MSG  bob   hello there ")
    ≡ (codes "msg", codes "bob   hello there")
unfolding parse_command trim_space trim_left trim_right is_space to_lower
    livechat_server.Strings.split_space
parse_msg = refl

normalize_go : normalize_room_key ⦃u = ascii⦄ (codes "  GoLang  ") ≡ codes "golang"
unfolding normalize_room_key trim_space trim_left trim_right is_space to_lower
normalize_go = refl

sanitize_user_name_iff_example :
    (sanitize_user_name ⦃u = ascii⦄ (codes "bob_123") ≡ ok (codes "bob_123"))
    ↔ ((codes "bob_123" ≡ trim_space (codes "bob_123")) × IsUserName ⦃u = ascii⦄ (codes "bob_123"))
sanitize_user_name_iff_example =
    sanitize_user_name_iff ⦃u = ascii⦄ (codes "bob_123") (codes "bob_123")

parse_command_line_example :
    parse_command ⦃u = ascii⦄ (codes "/MSG  bob   hello there ")
    ≡ (to_lower ⦃u = ascii⦄ (codes "MSG"), trim_space (codes " bob   hello there "))
unfolding all is_space
parse_command_line_example =
    parse_command_line ⦃u = ascii⦄ (codes "MSG") (codes " bob   hello there ") refl

post_all-last_n_example :
    (post_all
      (new_room ⦃u = ascii⦄ (codes "a") (pos 2))
      (codes "x" ∷ codes "y" ∷ codes "z" ∷ [])).history
    ≡ codes "y" ∷ codes "z" ∷ []
unfolding new_room
post_all-last_n_example =
    post_all-last_n (new_room ⦃u = ascii⦄ (codes "a") (pos 2))
      (codes "x" ∷ codes "y" ∷ codes "z" ∷ []) refl (omega arith)

recent_history-post_all_example :
    recent_history
      (post_all (new_room ⦃u = ascii⦄ (codes "a") (pos 3)) (codes "x" ∷ codes "y" ∷ []))
      (pos 1)
    ≡ codes "y" ∷ []
recent_history-post_all_example =
    recent_history-post_all ⦃u = ascii⦄ (codes "a") 2 0 (codes "x" ∷ codes "y" ∷ [])
