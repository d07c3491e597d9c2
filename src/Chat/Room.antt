-- ===== src/Chat/Room.antt =====
-- internal/chat/room.go. A member is the address of a client, under the client's id; a method
-- returns the new room.
pub mod History
pub mod Members
use livechat_server.Base.{
  ℕ, suc, ◌-◌, ◌≡◌, Bool, true, false, List, [], ◌∷◌, ◌++◌, map, Text, codes, ltb, ◌==◌,
  if◌then◌else◌, Option, none, some, is_nil, ℤ, pos, negsuc, is_nonpos, to_nat, length, drop,
  StrMap, insert, delete, values, keep_if, not, ◌||◌,
}
use livechat_server.Strings.{Unicode, trim_space}
use livechat_server.Strings.Sorting.{sort_by, text_le}
use livechat_server.Chat.Util.{normalize_room_key}

pub record Room : Type 0 where
  pub key : Text
  pub name : Text
  pub topic : Text
  pub members : StrMap ℕ
  pub history : List Text
  pub history_limit : ℤ

module _ ⦃u : Unicode⦄ where
  abbrev or_lobby : Text → Text
  or_lobby s = if is_nil s then codes "lobby" else s

  unfoldable pub new_room : Text → ℤ → Room
  new_room name limit = record {
    key = normalize_room_key (or_lobby (trim_space name));
    name = or_lobby (trim_space name);
    topic = [];
    members = [];
    history = [];
    history_limit = limit;
  }

-- The name stays where the new one is blank.
unfoldable pub set_name : Room → Text → Room
set_name r name = record r { name = if is_nil (trim_space name) then r.name else trim_space name }

-- The new room, and the topic that `SetTopic` returns.
unfoldable pub set_topic : Room → Text → Room × Text
set_topic r topic = (record r { topic = trim_space topic }, trim_space topic)

unfoldable pub add_member : Room → Text → ℕ → Room
add_member r id c = record r { members = insert id c r.members }

unfoldable pub remove_member : Room → Text → Room
remove_member r id = record r { members = delete id r.members }

unfoldable pub member_count : Room → ℕ
member_count r = length r.members

unfoldable pub is_empty : Room → Bool
unfolding member_count
is_empty r = member_count r == 0

abbrev pub not_excluded : Option ℕ → ℕ → Bool
not_excluded none c = true
not_excluded (some e) c = not (c == e)

-- `exclude` is nil or a client.
unfoldable pub members_snapshot : Room → Option ℕ → List ℕ
members_snapshot r exclude = keep_if (not_excluded exclude) (values r.members)

-- `name` is `DisplayName` of the client at an address.
unfoldable pub member_names : Room → (ℕ → Text) → List Text
member_names r name = sort_by text_le (map name (values r.members))

-- `history[len(history)-n:]`.
abbrev pub last_n {ℓ} : {A : Type ℓ} → ℕ → List A → List A
last_n n xs = drop (length xs - n) xs

abbrev cut_history : ℤ → List Text → List Text
cut_history limit h = if ltb (to_nat limit) (length h) then last_n (to_nat limit) h else h

unfoldable pub append_history : Room → Text → Room
append_history r entry = record r {
  history =
      if is_nonpos r.history_limit
      then r.history
      else cut_history r.history_limit (r.history ++ entry ∷ []);
}

-- The number of entries that `RecentHistory` returns.
abbrev recent_count : ℤ → ℕ → ℕ
recent_count limit len = if is_nonpos limit || ltb len (to_nat limit) then len else to_nat limit

unfoldable pub recent_history : Room → ℤ → List Text
recent_history r limit = last_n (recent_count limit (length r.history)) r.history
