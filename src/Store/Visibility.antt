-- ===== src/Store/Visibility.antt =====
-- Which rooms a user is shown, and the default room.
use mathlib.Core.List.{Perm}
use livechat_server.Base.{
  ◌≡◌, ◌⊎◌, refl, Bool, true, false, not, ◌&&◌, ◌||◌, List, [], ◌∷◌, map, Text, none, some, keep_if,
  arith, text_eq, text_eq_iff, Bool-cases, Option-cases, inl, inr, leb, codes,
}
use livechat_server.Strings.Sorting.{sort_by, sort_by-perm, sort_by-IsSorted, IsSorted}
use livechat_server.Store.Models.{Uuid, Room, RoomMember}
use livechat_server.Store.Queries.{Call, ok, Dialect, query, any, left_join, statement}
use livechat_server.Store.Rows.{Tables, same_room, same_member, is_member_row}
use livechat_server.Store.Unique.{
  NoTwo, keep_if_none, any_imp, find_first-append_one, find_first-none,
}
use livechat_server.Store.Pages.{query-eq-ok}
use livechat_server.Store.Sound.{IsSound}
use livechat_server.Store.Rooms.{
  list_rooms, is_visible, ensure_default_room, default_room, seed_unless_found, after_insert,
  create_room, insert_room, get_room,
}

module _ (room user : Uuid) where
  -- A user stands in a room at most once.
  at_most_one :
      (l : List RoomMember)
      → NoTwo same_member l
      → ((keep_if (is_member_row room user) l ≡ []) × (any (is_member_row room user) l ≡ false))
        ⊎ ((m : RoomMember) × (keep_if (is_member_row room user) l ≡ m ∷ [])
            × (any (is_member_row room user) l ≡ true))
  unfolding keep_if any
  at_most_one [] h = inl (refl, refl)
  at_most_one (x ∷ l) h = elim (Bool-cases (is_member_row room user x)) [
    | inl f ↦
        let others =
          any_imp (is_member_row room user) (same_member x) l
            (λ m g. ground (
              arith,
              text_eq_iff m.room_id room,
              text_eq_iff m.user_id user,
              text_eq_iff x.room_id room,
              text_eq_iff x.user_id user,
              text_eq_iff x.room_id m.room_id,
              text_eq_iff x.user_id m.user_id,
            ))
            h.0 in
        inr (x, ground (arith, keep_if_none (is_member_row room user) l), ground arith)
    | inr f ↦ elim (at_most_one l h.1) [
      | inl (a, b) ↦ inl (ground arith, ground arith)
      | inr (m, a, b) ↦ inr (m, ground arith, ground arith)
    ]
  ]

-- A room is public, or the user is a member.
abbrev pub may_see : Uuid → Tables → Room → Bool
may_see user t r = not r.is_private || any (is_member_row r.id user) t.members

visible_join :
    (user : Uuid) (t : Tables) (l : List Room)
    → IsSound t
    → map (λ p. p.0) (keep_if is_visible (left_join (λ r m. is_member_row r.id user m) l t.members))
      ≡ keep_if (may_see user t) l
unfolding left_join keep_if
visible_join user t [] s = refl
visible_join user t (r ∷ l) s = elim (at_most_one r.id user t.members s.members_unique) [
  | inl (a, b) ↦ rw (a, b) (ground (arith, visible_join user t l s))
  | inr (m, a, b) ↦ rw (a, b) (ground (arith, visible_join user t l s))
]

abbrev pub newer_room : Room → Room → Bool
newer_room a b = leb b.created_at a.created_at

newer_room_total : (a b : Room) → newer_room a b ≡ false → newer_room b a ≡ true
newer_room_total a b h = ground arith

-- ListRooms shows each room that is public or has the user as a member once, and no other, the newest
-- first.
pub list_rooms_visible :
    (k : Call) (user : Uuid) (t : Tables) (l : List Room)
    → IsSound t
    → list_rooms k user t ≡ ok l
    → Perm l (keep_if (may_see user t) t.rooms) × IsSorted newer_room l
unfolding list_rooms
list_rooms_visible k user t l s h = rw (← query-eq-ok k (sort_by newer_room seen) l h) listed
  where
    seen : List Room
    seen =
        map (λ p. p.0)
          (keep_if is_visible (left_join (λ r m. is_member_row r.id user m) t.rooms t.members))

    listed :
        Perm (sort_by newer_room seen) (keep_if (may_see user t) t.rooms)
        × IsSorted newer_room (sort_by newer_room seen)
    listed = rw (visible_join user t t.rooms s) (
      sort_by-perm newer_room (keep_if (may_see user t) t.rooms),
      sort_by-IsSorted newer_room newer_room_total (keep_if (may_see user t) t.rooms),
    )

text_eq_same : (s : Text) → text_eq s s ≡ true
text_eq_same s = ground (arith, text_eq_iff s s)

module _ (insert_call get_call : Call) (creator : Uuid) (d : Dialect) (t t' : Tables)
    (room : Room) where
  -- A room that was made is the default room then.
  default_room_made :
      default_room d t ≡ none
      → after_insert get_call insert_call.id
          (create_room insert_call (codes "general") false creator t)
        ≡ (t', ok room)
      → default_room d t' ≡ some room
  unfolding after_insert create_room statement insert_room get_room query
  default_room_made missing made = ground (
    arith,
    find_first-append_one (λ r. text_eq (d.lower r.name) (d.lower (codes "general"))) t.rooms row,
    find_first-append_one (λ r. text_eq r.id insert_call.id) t.rooms row,
    find_first-none (λ r. text_eq r.id insert_call.id) t.rooms,
    any_imp (λ r. text_eq r.id insert_call.id) (same_room row) t.rooms same_id,
    text_eq_same insert_call.id,
    text_eq_same (d.lower (codes "general")),
  )
    where
      row : Room
      row = record {
        id = insert_call.id;
        name = codes "general";
        is_private = false;
        created_by = creator;
        created_at = insert_call.now;
      }

      same_id : (r : Room) → text_eq r.id insert_call.id ≡ true → same_room row r ≡ true
      same_id r e = ground (arith, text_eq_iff r.id insert_call.id, text_eq_iff insert_call.id r.id)

  found_first :
      (find_call : Call)
      → ensure_default_room find_call insert_call get_call creator d t ≡ (t', ok room)
      → default_room d t' ≡ some room
  unfolding ensure_default_room query seed_unless_found
  found_first find_call h = elim (Option-cases (default_room d t)) [
    | inl e ↦ elim (Bool-cases (find_call.reached && find_call.answered)) [
      | inl f ↦ default_room_made e (ground arith)
      | inr f ↦ ground arith
    ]
    | inr (r, e) ↦ ground arith
  ]

-- Once EnsureDefaultRoom has answered with a room, whatever was lost before, every later call whose
-- query is answered gives that room again and changes nothing.
pub ensure_default_room_twice :
    (find_call insert_call get_call find_call' insert_call' get_call' : Call)
    (creator creator' : Uuid) (d : Dialect) (t t' : Tables) (room : Room)
    → ensure_default_room find_call insert_call get_call creator d t ≡ (t', ok room)
    → (find_call'.reached && find_call'.answered) ≡ true
    → ensure_default_room find_call' insert_call' get_call' creator' d t' ≡ (t', ok room)
unfolding ensure_default_room query seed_unless_found
ensure_default_room_twice find_call insert_call get_call find_call' insert_call' get_call' creator
      creator' d t t' room h e =
    ground (arith, found_first insert_call get_call creator d t t' room find_call h)
