-- ===== src/Chat/Commands/Listings.antt =====
-- The list of rooms of internal/chat/server.go.
use mathlib.Core.List.{Perm}
use livechat_server.Base.{
  ◌≡◌, ◌<◌, ◌⊎◌, inl, inr, List, [], ◌∷◌, true, false, map, values, arith, ltb, ==_iff, Bool-cases,
}
use livechat_server.Strings.Sorting.{
  IsSorted, sort_by-perm, sort_by-IsSorted, text_le, text_le_total,
}
use livechat_server.Chat.Registry.{Registry}
use livechat_server.Chat.Commands.{Summary, summary, summary_le, room_summaries}

summary_le_total : (a b : Summary) → summary_le a b ≡ false → summary_le b a ≡ true
unfolding summary_le
summary_le_total a b h = ground (arith, text_le_total a.name b.name)

-- The one with more members is first, and of two with as many the one whose name is not greater.
abbrev pub IsBefore : Summary → Summary → Type 0
IsBefore a b = (b.count < a.count) ⊎ ((a.count ≡ b.count) × (text_le a.name b.name ≡ true))

abbrev pub AreInOrder : List Summary → Type 0
AreInOrder [] = Unit
AreInOrder (a ∷ []) = Unit
AreInOrder (a ∷ b ∷ l) = IsBefore a b × AreInOrder (b ∷ l)

summary_le-IsBefore : (a b : Summary) → summary_le a b ≡ true → IsBefore a b
unfolding summary_le
summary_le-IsBefore a b h = elim (Bool-cases (ltb b.count a.count)) [
  | inl e ↦ inl (ground arith)
  | inr e ↦ inr (ground (arith, ==_iff a.count b.count))
]

IsSorted-AreInOrder : (l : List Summary) → IsSorted summary_le l → AreInOrder l
IsSorted-AreInOrder [] h = tt
IsSorted-AreInOrder (a ∷ []) h = tt
IsSorted-AreInOrder (a ∷ b ∷ l) h = (summary_le-IsBefore a b h.0, IsSorted-AreInOrder (b ∷ l) h.1)

-- /rooms lists each room of the table once: of two entries that follow each other the first has more
-- members, or as many and a name that is not greater.
pub room_summaries_ordered :
    (g : Registry)
    → AreInOrder (room_summaries g)
      × Perm (room_summaries g) (map (λ room. summary (g.room_at room)) (values g.rooms))
unfolding room_summaries
room_summaries_ordered g = (
  IsSorted-AreInOrder (room_summaries g) (
      sort_by-IsSorted summary_le summary_le_total
        (map (λ room. summary (g.room_at room)) (values g.rooms))),
  sort_by-perm summary_le (map (λ room. summary (g.room_at room)) (values g.rooms)),
)
