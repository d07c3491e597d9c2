-- ===== src/Chat/Registry.antt =====
-- The part of `Server` in internal/chat/server.go that its mutex guards, and the critical sections.
-- Clients and rooms are objects on a heap, the maps hold their addresses.
pub mod Invariant
pub mod Clients
pub mod Names
pub mod Exit
pub mod Create
pub mod Switch
pub mod Cleanup
pub mod Moves
use livechat_server.Base.{
  ℕ, suc, ◌≡◌, Bool, true, false, ◌&&◌, not, List, [], ◌∷◌, ◌++◌, Text, if◌then◌else◌, Option, none,
  some, is_nil, ℤ, StrMap, lookup, insert, delete, has, Heap, update, text_eq,
}
use livechat_server.Strings.{Unicode, to_lower, equal_fold}
use livechat_server.Chat.Util.{normalize_room_key}
use livechat_server.Chat.Room.{Room, new_room, add_member, remove_member, is_empty}
use livechat_server.Chat.Client.{Client, new_client, set_client_name, set_room}

pub record Registry : Type 0 where
  pub rooms : StrMap ℕ
  pub clients : StrMap ℕ
  pub names : StrMap ℕ
  pub client_at : Heap Client
  pub room_at : Heap Room
  -- the next free addresses
  pub next_client : ℕ
  pub next_room : ℕ

-- A new object is written at the next free address.
unfoldable pub alloc_client : Registry → Client → Registry
alloc_client g c = record g {
  client_at = update g.client_at g.next_client c;
  next_client = suc g.next_client;
}

unfoldable pub put_client : Registry → ℕ → Client → Registry
put_client g a c = record g { client_at = update g.client_at a c }

unfoldable pub put_room : Registry → ℕ → Room → Registry
put_room g a r = record g { room_at = update g.room_at a r }

abbrev pub client_name : Registry → ℕ → Text
client_name g c = (g.client_at c).name

-- `roomForClient`.
unfoldable pub room_for_client : Registry → ℕ → Option ℕ
room_for_client g c =
    let key = (g.client_at c).room_key in if is_nil key then none else lookup key g.rooms

-- What `moveClientRoom` returns.
pub record Moved : Type 0 where
  pub registry : Registry
  pub room : ℕ
  pub previous : Option ℕ
  pub already : Bool

module _ ⦃u : Unicode⦄ where
  -- `addClient`; `none` is its error.
  unfoldable pub add_client : Registry → ℕ → Option Registry
  add_client g c =
      let key = to_lower (client_name g c) in
      if has key g.names
      then none
      else some (record g {
        clients = insert (g.client_at c).id c g.clients;
        names = insert key c g.names;
      })

  -- The lobby is kept, and so is a room with a member.
  unfoldable pub drop_if_empty : Text → Registry → Text → ℕ → Registry
  drop_if_empty lobby g key room =
      if is_empty (g.room_at room) && not (equal_fold (g.room_at room).name lobby)
      then record g { rooms = delete key g.rooms }
      else g

  leave_on_exit : Text → Registry → ℕ → Option ℕ → Registry
  leave_on_exit lobby g c none = g
  leave_on_exit lobby g c (some room) =
      drop_if_empty lobby (put_room g room (remove_member (g.room_at room) (g.client_at c).id))
        (g.client_at c).room_key room

  -- The critical section of `removeClient`, with the room that the client was in.
  unfoldable pub unregister : Text → Registry → ℕ → Registry × Option ℕ
  unfolding leave_on_exit
  unregister lobby g c =
      let room = room_for_client g c in
      let g' = record g {
        clients = delete (g.client_at c).id g.clients;
        names = delete (to_lower (client_name g c)) g.names;
      } in
      (leave_on_exit lobby g' c room, room)

  abbrev room_key_or_lobby : Text → Text → Text
  room_key_or_lobby lobby name =
      let key = normalize_room_key name in if is_nil key then normalize_room_key lobby else key

  unfoldable pub create_room : Registry → Text → Text → ℤ → Registry
  create_room g key name limit = record g {
    rooms = insert key g.next_room g.rooms;
    room_at = update g.room_at g.next_room (new_room name limit);
    next_room = suc g.next_room;
  }

  -- The room under a key, made if there is none.
  unfoldable pub get_or_create_room : Registry → Text → Text → ℤ → Registry × ℕ
  unfolding create_room
  get_or_create_room g key name limit = elim (lookup key g.rooms) [
    | some room ↦ (g, room)
    | none ↦ (create_room g key name limit, g.next_room)
  ]

  leave_previous : Registry → ℕ → Option ℕ → Registry
  leave_previous g c none = g
  leave_previous g c (some previous) =
      put_room g previous (remove_member (g.room_at previous) (g.client_at c).id)

  -- The client leaves the room that it is in, if any, and enters another.
  unfoldable pub switch_room : Registry → ℕ → ℕ → Registry × Option ℕ
  unfolding leave_previous
  switch_room g c room =
      let previous = room_for_client g c in
      let left = leave_previous g c previous in
      let entered = put_room left room (add_member (left.room_at room) (left.client_at c).id c) in
      (put_client entered c (set_room (entered.client_at c) (entered.room_at room)), previous)

  unfoldable pub move_client_room : Text → ℤ → Registry → ℕ → Text → Moved
  move_client_room lobby limit g c room_name =
      let (g', room) = get_or_create_room g (room_key_or_lobby lobby room_name) room_name limit in
      let (moved, previous) = switch_room g' c room in
      if text_eq (g'.client_at c).room_key (g'.room_at room).key
      then record { registry = g'; room = room; previous = some room; already = true }
      else record { registry = moved; room = room; previous = previous; already = false }

  -- `cleanupRoom`, for a room that is not nil.
  unfoldable pub cleanup_room : Text → Registry → ℕ → Registry
  cleanup_room lobby g room = drop_if_empty lobby g (g.room_at room).key room

  -- The critical section of `cmdNick`; `none`: the name is taken.
  unfoldable pub take_name : Registry → ℕ → Text → Text → Option Registry
  take_name g c old_name name =
      if has (to_lower name) g.names
      then none
      else some (record g { names = insert (to_lower name) c (delete (to_lower old_name) g.names) })
