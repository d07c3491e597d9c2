-- ===== src/Chat/Registry/Invariant.antt =====
-- The invariant of the registry: the name table, the client table and the member tables agree.
use livechat_server.Base.{
  ℕ, suc, ◌<◌, ◌≡◌, ◌⊎◌, true, false, [], Text, none, some, lookup, StrMap, UniqueKeys, arith,
}
use livechat_server.Strings.{Unicode, to_lower, equal_fold}
use livechat_server.Chat.Room.{is_empty}
use livechat_server.Chat.Client.{client_id}
use livechat_server.Chat.Registry.{Registry, client_name}

-- The client at an address is in the client table.
abbrev pub IsOnline : Registry → ℕ → Type 0
IsOnline g c = lookup (g.client_at c).id g.clients ≡ some c

-- The members of the room under a key, and none where there is no room.
abbrev pub members_under : Text → Registry → StrMap ℕ
members_under k g = elim (lookup k g.rooms) [ none ↦ [] | some r ↦ (g.room_at r).members ]

-- The client is a member of the room that its key names.
abbrev pub IsMember : Registry → ℕ → Type 0
IsMember g c = lookup (g.client_at c).id (members_under (g.client_at c).room_key g) ≡ some c

module _ ⦃u : Unicode⦄ where
  pub record Inv (g : Registry) : Type 0 where
    -- a name leads to an online client of that name, and an online client is found by its name
    pub name_held : (k : Text) (c : ℕ) → lookup k g.names ≡ some c → k ≡ to_lower (client_name g c)
    pub name_online : (k : Text) (c : ℕ) → lookup k g.names ≡ some c → IsOnline g c
    pub online_named : (c : ℕ) → IsOnline g c → lookup (to_lower (client_name g c)) g.names ≡ some c
    pub id_held : (i : Text) (c : ℕ) → lookup i g.clients ≡ some c → i ≡ (g.client_at c).id
    -- rooms stand under their keys, and their members are the online clients with that key
    pub room_keyed : (k : Text) (r : ℕ) → lookup k g.rooms ≡ some r → (g.room_at r).key ≡ k
    pub room_named : lookup [] g.rooms ≡ none
    pub member_online : (k i : Text) (c : ℕ) → lookup i (members_under k g) ≡ some c → IsOnline g c
    pub member_id :
        (k i : Text) (c : ℕ) → lookup i (members_under k g) ≡ some c → i ≡ (g.client_at c).id
    pub member_key :
        (k i : Text) (c : ℕ) → lookup i (members_under k g) ≡ some c → (g.client_at c).room_key ≡ k
    pub members_unique : (k : Text) → UniqueKeys (members_under k g)
    pub online_member : (c : ℕ) → IsOnline g c → ((g.client_at c).room_key ≡ []) ⊎ IsMember g c
    -- addresses in use
    pub client_old : (i : Text) (c : ℕ) → lookup i g.clients ≡ some c → c < g.next_client
    pub numbered : (i : Text) (c : ℕ) → lookup i g.clients ≡ some c → i ≡ client_id (suc c)
    pub room_old : (k : Text) (r : ℕ) → lookup k g.rooms ≡ some r → r < g.next_room

  -- A room with no member is kept only if it is the lobby.
  abbrev pub NoIdleRoom : Text → Registry → Type 0
  NoIdleRoom lobby g =
      (k : Text) (r : ℕ)
      → lookup k g.rooms ≡ some r
      → (is_empty (g.room_at r) ≡ false) ⊎ (equal_fold (g.room_at r).name lobby ≡ true)

  -- Two online clients with one id are one client.
  pub online_unique :
      (g : Registry) (a b : ℕ)
      → IsOnline g a
      → IsOnline g b
      → (g.client_at a).id ≡ (g.client_at b).id
      → a ≡ b
  online_unique g a b h k e = ground arith
