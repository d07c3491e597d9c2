-- ===== src/Store/Rooms.antt =====
-- The rooms of internal/store/store.go and their members.
use livechat_server.Base.{
  ℕ, Bool, true, false, not, ◌&&◌, List, [], ◌∷◌, ◌++◌, map, Text, codes, text_eq, Option, none,
  some, if◌then◌else◌, keep_if, leb,
}
use livechat_server.Strings.Sorting.{sort_by}
use livechat_server.Store.Models.{Uuid, Room, RoomMember}
use livechat_server.Store.Queries.{
  Call, Outcome, ok, not_found, failed, Dialect, find_first, any, or_not_found, query, statement,
  left_join,
}
use livechat_server.Store.Rows.{Tables, same_room, is_member_row, same_member, has_user, has_room}

-- `where r.is_private = false or m.user_id is not null`
abbrev pub is_visible : Room × Option RoomMember → Bool
is_visible (r, none) = not r.is_private
is_visible (r, some m) = true

abbrev pub read_until : Uuid → Uuid → ℕ → RoomMember → RoomMember
read_until room user at m = if is_member_row room user m then record m { last_read_at = at } else m

unfoldable pub insert_room : Room → Tables → Tables × Outcome Room
insert_room room t =
    if any (same_room room) t.rooms
    then (t, failed)
    else (record t { rooms = t.rooms ++ room ∷ [] }, ok room)

-- `on conflict (room_id, user_id) do nothing`: the references are looked at for a new row alone.
unfoldable pub insert_member : RoomMember → Tables → Tables × Outcome (Unit {0})
insert_member row t =
    if any (same_member row) t.members
    then (t, ok tt)
    else if has_room row.room_id t && has_user row.user_id t
    then (record t { members = t.members ++ row ∷ [] }, ok tt)
    else (t, failed)

module _ (k : Call) where
  unfoldable pub create_room : Text → Bool → Uuid → Tables → Tables × Outcome Room
  create_room name is_private created_by t =
      let room : Room = record {
        id = k.id;
        name = name;
        is_private = is_private;
        created_by = created_by;
        created_at = k.now;
      } in
      statement k (insert_room room t) t

  unfoldable pub list_rooms : Uuid → Tables → Outcome (List Room)
  list_rooms user t = query k (
      ok (
        sort_by (λ a b. leb b.created_at a.created_at)
          (map (λ p. p.0)
            (keep_if is_visible (left_join (λ r m. is_member_row r.id user m) t.rooms t.members)))))

  unfoldable pub get_room : Uuid → Tables → Outcome Room
  get_room room t = query k (or_not_found (find_first (λ r. text_eq r.id room) t.rooms))

  unfoldable pub add_room_member : Uuid → Uuid → Text → Tables → Tables × Outcome (Unit {0})
  add_room_member room user role t =
      let row : RoomMember = record {
        room_id = room;
        user_id = user;
        role = role;
        joined_at = k.now;
        last_read_at = k.now;
      } in
      statement k (insert_member row t) t

  unfoldable pub remove_room_member : Uuid → Uuid → Tables → Tables × Outcome (Unit {0})
  remove_room_member room user t =
      statement k
        (record t { members = keep_if (λ m. not (is_member_row room user m)) t.members }, ok tt) t

  unfoldable pub is_room_member : Uuid → Uuid → Tables → Outcome Bool
  is_room_member room user t = query k (ok (any (is_member_row room user) t.members))

  unfoldable pub update_room_read_at : Uuid → Uuid → ℕ → Tables → Tables × Outcome (Unit {0})
  update_room_read_at room user read_at t =
      statement k (record t { members = map (read_until room user read_at) t.members }, ok tt) t

-- The row that EnsureDefaultRoom asks for first.
abbrev pub default_room : Dialect → Tables → Option Room
default_room d t = find_first (λ r. text_eq (d.lower r.name) (d.lower (codes "general"))) t.rooms

-- The end of EnsureDefaultRoom, behind its insert.
unfoldable pub after_insert : Call → Uuid → Tables × Outcome Room → Tables × Outcome Room
after_insert k id (t, ok room) = (t, get_room k id t)
after_insert k id (t, not_found) = (t, failed)
after_insert k id (t, failed) = (t, failed)

-- EnsureDefaultRoom behind its first query. `creator` is its second uuid.New.
unfoldable pub seed_unless_found :
    Call → Call → Uuid → Outcome Room → Tables → Tables × Outcome Room
seed_unless_found insert_call get_call creator (ok room) t = (t, ok room)
seed_unless_found insert_call get_call creator not_found t =
    after_insert get_call insert_call.id (create_room insert_call (codes "general") false creator t)
seed_unless_found insert_call get_call creator failed t = (t, failed)

unfoldable pub ensure_default_room :
    Call → Call → Call → Uuid → Dialect → Tables → Tables × Outcome Room
ensure_default_room find_call insert_call get_call creator d t =
    seed_unless_found insert_call get_call creator
      (query find_call (or_not_found (default_room d t))) t
