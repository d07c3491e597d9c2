-- ===== src/Chat/Room/Members.antt =====
-- The list of names that a room shows.
use mathlib.Core.List.{Perm}
use livechat_server.Base.{ℕ, map, Text, values}
use livechat_server.Strings.Sorting.{
  IsSorted, sort_by-perm, sort_by-IsSorted, text_le, text_le_total,
}
use livechat_server.Chat.Room.{Room, member_names}

-- MemberNames is in order and lists the name of each member once for each member.
pub member_names_ordered :
    (r : Room) (name : ℕ → Text)
    → IsSorted text_le (member_names r name)
      × Perm (member_names r name) (map name (values r.members))
unfolding member_names
member_names_ordered r name = (
  sort_by-IsSorted text_le text_le_total (map name (values r.members)),
  sort_by-perm text_le (map name (values r.members)),
)
