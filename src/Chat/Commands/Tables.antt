-- ===== src/Chat/Commands/Tables.antt =====
-- internal/chat/server.go: `cmdWho` and `cmdRooms`.
use livechat_server.Base.{
  ℕ, Bool, List, [], ◌∷◌, ◌++◌, map, Text, codes, if◌then◌else◌, Option, none, some, is_nil, values,
  length, ltb, ◌==◌, ◌||◌, ◌&&◌,
}
use livechat_server.Strings.{Unicode, trim_space, equal_fold, join}
use livechat_server.Strings.Decimal.{dec}
use livechat_server.Strings.Sorting.{sort_by, text_le}
use livechat_server.Chat.Room.{Room, member_names, member_count}
use livechat_server.Chat.Registry.{Registry, room_for_client, client_name}
use livechat_server.Chat.Server.{Server, send, send_system}
use livechat_server.Chat.Commands.Words.{not_in_room}

-- "#name (count): names", or "Online (count): names".
abbrev listing : Text → List Text → Text
listing head names =
    head ++ (codes " (" ++ (dec (length names) ++ (codes "): " ++ join names (codes ", "))))

-- The names of all clients, as `cmdWho` sorts them.
unfoldable pub online_names : Registry → List Text
online_names g = sort_by text_le (map (client_name g) (values g.clients))

unfoldable pub who_room : Server → ℕ → Option ℕ → Server
who_room s c none = send_system s c not_in_room
who_room s c (some room) =
    let r = s.room_at room in
    send_system s c (listing (codes "#" ++ r.name) (member_names r (client_name s.reg)))

module _ ⦃u : Unicode⦄ where
  unfoldable pub cmd_who : Server → ℕ → Text → Server
  unfolding who_room
  cmd_who s c args =
      if equal_fold (trim_space args) (codes "all")
      then send_system s c (listing (codes "Online") (online_names s.reg))
      else who_room s c (room_for_client s.reg c)

pub record Summary : Type 0 where
  pub name : Text
  pub count : ℕ
  pub topic : Text

-- Larger rooms first, and by name among rooms of a size.
unfoldable pub summary_le : Summary → Summary → Bool
summary_le a b = ltb b.count a.count || (a.count == b.count && text_le a.name b.name)

unfoldable pub summary : Room → Summary
summary r = record { name = r.name; count = member_count r; topic = r.topic }

unfoldable pub summary_line : Summary → Text
summary_line s =
    codes " - #"
    ++ (s.name
        ++ (codes " ("
            ++ (dec s.count
                ++ (codes ")" ++ (if is_nil s.topic then [] else codes " – " ++ s.topic)))))

unfoldable pub room_lines : List Summary → Text
unfolding summary_line
room_lines [] = []
room_lines (s ∷ l) = summary_line s ++ 10 ∷ room_lines l

unfoldable pub room_summaries : Registry → List Summary
unfolding summary
room_summaries g = sort_by summary_le (map (λ room. summary (g.room_at room)) (values g.rooms))

unfoldable pub send_rooms : Server → ℕ → List Summary → Server
send_rooms s c [] = send_system s c (codes "No active rooms yet. Be the first to /join one!")
send_rooms s c (r ∷ l) = send s c (codes "Rooms:\n" ++ room_lines (r ∷ l))

unfoldable pub cmd_rooms : Server → ℕ → Server
unfolding send_rooms room_lines
cmd_rooms s c = send_rooms s c (room_summaries s.reg)
