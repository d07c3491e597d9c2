-- ===== src/Tests/Store.antt =====
-- Histories of the tables of internal/store, and what is read from them.
use livechat_server.Base.{
  ℕ, refl, Bool, true, false, List, [], ◌∷◌, Text, none, some, codes, keep_if, text_eq, pos,
}
use mathlib.Core.List.{Perm}
use livechat_server.Strings.{to_lower}
use livechat_server.Strings.Ascii.{ascii}
use livechat_server.Strings.Sorting.{sort_by, insert_sorted, IsSorted}
use livechat_server.Store.Models.{Room, Message}
use livechat_server.Store.Queries.{Call, Dialect, query, statement, any, inner_join, left_join}
use livechat_server.Store.Rows.{Tables}
use livechat_server.Store.Users.{create_user, insert_user}
use livechat_server.Store.Rooms.{
  create_room, insert_room, add_room_member, insert_member, list_rooms,
}
use livechat_server.Store.Messages.{
  create_message, insert_message, list_room_messages, page, page_size, is_in_room,
}
use livechat_server.Store.Sound.{IsSound}
use livechat_server.Store.Histories.{Change, apply, apply_all, no_rows, history-IsSound}
use livechat_server.Store.Pages.{IsPage, list_room_messages-IsPage}
use livechat_server.Store.Visibility.{may_see, newer_room, list_rooms_visible}

-- A call that makes the id of a number, and is answered or not.
abbrev pub call : ℕ → ℕ → Bool → Call
call id now answered = record {
  id = id ∷ [];
  now = now;
  reached = true;
  answered = answered;
  choice = 0;
}

abbrev pub dialect : Dialect
dialect = record {
  lower = to_lower ⦃u = ascii⦄;
  ilike = λ s pattern. text_eq s pattern;
  text_order = λ s t. true;
}

-- The second user is refused, and the answer of the last message is lost.
abbrev pub changes : List (Call × Change)
changes =
    (call 1 1 true, Change.new_user (codes "ann@x") (codes "ann") (codes "h") [])
    ∷ (call 2 2 true, Change.new_user (codes "ann@x") (codes "bob") (codes "h") [])
    ∷ (call 3 3 true, Change.new_user (codes "bob@x") (codes "bob") (codes "h") [])
    ∷ (call 4 4 true, Change.new_room (codes "den") true (1 ∷ []))
    ∷ (call 5 5 true, Change.new_room (codes "hall") false (1 ∷ []))
    ∷ (call 6 6 true, Change.new_member (4 ∷ []) (1 ∷ []) (codes "owner"))
    ∷ (
      call 7 7 true,
      Change.new_message (some (4 ∷ [])) (1 ∷ []) none (codes "one") [] (codes "text"),
    )
    ∷ (
      call 8 8 false,
      Change.new_message (some (4 ∷ [])) (1 ∷ []) none (codes "two") [] (codes "text"),
    )
    ∷ []

abbrev pub filled : Tables
filled = apply_all changes no_rows

pub filled-IsSound : IsSound filled
filled-IsSound = history-IsSound changes

abbrev pub two : Message
two = record {
  id = 8 ∷ [];
  room_id = some (4 ∷ []);
  sender_id = 1 ∷ [];
  recipient_id = none;
  body = codes "two";
  message_type = codes "text";
  attachment_url = [];
  created_at = 8;
  sender_name = codes "ann";
  sender_avatar = [];
}

list_room_messages-IsPage_example :
    IsPage (is_in_room (4 ∷ []) 9) (page_size (pos 1)) filled (two ∷ [])
unfolding apply_all apply create_user insert_user create_room insert_room add_room_member
    insert_member create_message insert_message statement any text_eq list_room_messages query page
    sort_by insert_sorted keep_if inner_join
list_room_messages-IsPage_example =
    list_room_messages-IsPage (call 9 9 true) (4 ∷ []) (pos 1) 9 filled (two ∷ []) filled-IsSound
      refl

abbrev room : ℕ → Text → Bool → Room
room n name is_private = record {
  id = n ∷ [];
  name = name;
  is_private = is_private;
  created_by = 1 ∷ [];
  created_at = n;
}

-- The private room is shown to its member.
list_rooms_visible_example :
    Perm
      (room 5 (codes "hall") false ∷ room 4 (codes "den") true ∷ [])
      (keep_if (may_see (1 ∷ []) filled) filled.rooms)
    × IsSorted newer_room (room 5 (codes "hall") false ∷ room 4 (codes "den") true ∷ [])
unfolding apply_all apply create_user insert_user create_room insert_room add_room_member
    insert_member create_message insert_message statement any text_eq list_rooms query sort_by
    insert_sorted keep_if left_join
list_rooms_visible_example =
    list_rooms_visible (call 9 9 true) (1 ∷ []) filled
      (room 5 (codes "hall") false ∷ room 4 (codes "den") true ∷ []) filled-IsSound refl

abbrev seeded : Tables
seeded = record no_rows {
  rooms =
      (record {
        id = 2 ∷ [];
        name = codes "general";
        is_private = false;
        created_by = 7 ∷ [];
        created_at = 2;
      })
      ∷ [];
}
