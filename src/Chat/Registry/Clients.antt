-- ===== src/Chat/Registry/Clients.antt =====
-- The invariant is kept when a client is added, renamed, and when a room's text changes.
use livechat_server.Base.{
  ap, ℕ, suc, ◌≡◌, ◌≢◌, ◌⊎◌, inl, inr, [], Text, none, some, lookup, arith, update, text_eq_iff,
  lookup-insert, insert, Option-cases,
}
use livechat_server.Strings.{Unicode, to_lower}
use livechat_server.Chat.Room.{Room}
use livechat_server.Chat.Client.{Client, client_id, client_id_injective}
use livechat_server.Chat.Registry.{Registry, client_name, add_client, alloc_client, put_room}
use livechat_server.Chat.Registry.Invariant.{Inv, IsOnline, members_under}

module _ ⦃u : Unicode⦄ where
  module _ (g : Registry) (room : ℕ) (r : Room) where
    members_under-put_room :
        (k : Text)
        → r.members ≡ (g.room_at room).members
        → members_under k (put_room g room r) ≡ members_under k g
    unfolding put_room update
    members_under-put_room k m = ground arith

    -- A room may change its topic and history.
    pub put_room-Inv :
        Inv g
        → r.key ≡ (g.room_at room).key
        → r.members ≡ (g.room_at room).members
        → Inv (put_room g room r)
    unfolding put_room update
    put_room-Inv v k m = record {
      name_held = v.name_held;
      name_online = v.name_online;
      online_named = v.online_named;
      id_held = v.id_held;
      room_named = v.room_named;
      room_keyed = λ j x h. ground (arith, v.room_keyed j x h);
      member_online = λ j i c e. v.member_online j i c (rw (members_under-put_room j m) at e);
      member_id = λ j i c e. v.member_id j i c (rw (members_under-put_room j m) at e);
      member_key = λ j i c e. v.member_key j i c (rw (members_under-put_room j m) at e);
      members_unique = λ j. rw (members_under-put_room j m) (v.members_unique j);
      online_member =
          λ c h. rw (members_under-put_room (g.client_at c).room_key m) (v.online_member c h);
      client_old = v.client_old;
      numbered = v.numbered;
      room_old = v.room_old;
    }

  -- The registry when a new client is in both tables.
  admitted : Registry → Client → Registry
  unfolding update
  admitted g c = record g {
    client_at = update g.client_at g.next_client c;
    next_client = suc g.next_client;
    clients = insert c.id g.next_client g.clients;
    names = insert (to_lower c.name) g.next_client g.names;
  }

  module _ (g : Registry) (c : Client) (v : Inv g) (fresh : c.id ≡ client_id (suc g.next_client))
      (free_name : lookup (to_lower c.name) g.names ≡ none) (out : c.room_key ≡ []) where
    free_id : lookup c.id g.clients ≡ none
    free_id = elim (Option-cases (lookup c.id g.clients)) [
      | inl e ↦ e
      | inr (a, e) ↦ ground (
        arith,
        v.client_old c.id a e,
        v.numbered c.id a e,
        client_id_injective (suc a) (suc g.next_client),
      )
    ]

    admitted-IsOnline : (a : ℕ) → IsOnline (admitted g c) a → (a ≡ g.next_client) ⊎ IsOnline g a
    unfolding admitted
    admitted-IsOnline a h = ground (
      arith,
      lookup-insert c.id c.id g.next_client g.clients,
      lookup-insert c.id (g.client_at a).id g.next_client g.clients,
    )

    IsOnline-admitted : (a : ℕ) → IsOnline g a → IsOnline (admitted g c) a
    unfolding admitted
    IsOnline-admitted a h = ground (
      arith,
      v.client_old (g.client_at a).id a,
      free_id,
      lookup-insert c.id (g.client_at a).id g.next_client g.clients,
      text_eq_iff c.id (g.client_at a).id,
    )

    new-admitted : IsOnline (admitted g c) g.next_client
    unfolding admitted
    new-admitted =
        ground (arith, lookup-insert c.id c.id g.next_client g.clients, text_eq_iff c.id c.id)

    name-admitted :
        (k : Text) (a : ℕ)
        → lookup k (admitted g c).names ≡ some a
        → (a ≡ g.next_client) ⊎ (lookup k g.names ≡ some a)
    unfolding admitted
    name-admitted k a h = ground (arith, lookup-insert (to_lower c.name) k g.next_client g.names)

    admitted-Inv : Inv (admitted g c)
    unfolding admitted
    admitted-Inv = record {
      name_held = λ k a h. ground (
        arith,
        lookup-insert (to_lower c.name) k g.next_client g.names,
        text_eq_iff (to_lower c.name) k,
        v.name_held k a,
        free_id,
        v.name_online k a,
        v.client_old (g.client_at a).id a,
      );
      name_online = λ k a h. elim (name-admitted k a h) [
        | inl e ↦ rw e new-admitted
        | inr held ↦ IsOnline-admitted a (v.name_online k a held)
      ];
      online_named = λ a h. ground (
        arith,
        admitted-IsOnline a h,
        v.online_named a,
        v.client_old (g.client_at a).id a,
        lookup-insert (to_lower c.name) (to_lower c.name) g.next_client g.names,
        text_eq_iff (to_lower c.name) (to_lower c.name),
        lookup-insert (to_lower c.name) (to_lower (client_name g a)) g.next_client g.names,
        text_eq_iff (to_lower c.name) (to_lower (client_name g a)),
      );
      id_held = λ i a h. ground (
        arith,
        lookup-insert c.id i g.next_client g.clients,
        text_eq_iff c.id i,
        v.id_held i a,
        v.client_old i a,
      );
      room_named = v.room_named;
      room_keyed = v.room_keyed;
      member_online = λ k i a h. IsOnline-admitted a (v.member_online k i a h);
      member_id = λ k i a h.
          ground (
            arith,
            v.member_id k i a h,
            v.member_online k i a h,
            v.client_old (g.client_at a).id a,
          );
      member_key = λ k i a h.
          ground (
            arith,
            v.member_key k i a h,
            v.member_online k i a h,
            v.client_old (g.client_at a).id a,
          );
      members_unique = v.members_unique;
      online_member = λ a h.
          ground
            (arith, admitted-IsOnline a h, v.online_member a, v.client_old (g.client_at a).id a);
      client_old =
          λ i a h. ground (arith, lookup-insert c.id i g.next_client g.clients, v.client_old i a);
      numbered = λ i a h.
          ground (
            arith,
            lookup-insert c.id i g.next_client g.clients,
            text_eq_iff c.id i,
            v.numbered i a,
          );
      room_old = v.room_old;
    }

  admit_admitted :
      (g : Registry) (c : Client) (g' : Registry)
      → add_client (alloc_client g c) g.next_client ≡ some g'
      → (lookup (to_lower c.name) g.names ≡ none) × (g' ≡ admitted g c)
  unfolding add_client alloc_client admitted update
  admit_admitted g c g' h = ground arith

  -- A client with the next id can be added, unless its name is taken.
  pub add_client-Inv :
      (g : Registry) (c : Client) (g' : Registry)
      → Inv g
      → c.id ≡ client_id (suc g.next_client)
      → c.room_key ≡ []
      → add_client (alloc_client g c) g.next_client ≡ some g'
      → Inv g'
  add_client-Inv g c g' v free out h =
      let (named, e) = admit_admitted g c g' h in rw e (admitted-Inv g c v free named out)

  pub add_client-IsOnline :
      (g : Registry) (c : Client) (g' : Registry)
      → Inv g
      → c.id ≡ client_id (suc g.next_client)
      → c.room_key ≡ []
      → add_client (alloc_client g c) g.next_client ≡ some g'
      → IsOnline g' g.next_client × (g'.next_client ≡ suc g.next_client)
  unfolding admitted
  add_client-IsOnline g c g' v free out h =
      let (named, e) = admit_admitted g c g' h in
      (rw e (new-admitted g c v free named out), ap (λ r. r.next_client) e)

  alloc-IsOnline :
      (g : Registry) (c : Client) (a : ℕ)
      → Inv g
      → c.id ≡ client_id (suc g.next_client)
      → IsOnline (alloc_client g c) a
      → IsOnline g a × (a ≢ g.next_client)
  unfolding alloc_client update
  alloc-IsOnline g c a v fresh h = ground (
    arith,
    v.client_old c.id a,
    v.client_old (g.client_at a).id a,
    v.numbered c.id a,
    client_id_injective (suc a) (suc g.next_client),
  )

  -- A client that is only allocated is not seen by the tables.
  pub alloc_client-Inv :
      (g : Registry) (c : Client)
      → Inv g
      → c.id ≡ client_id (suc g.next_client)
      → Inv (alloc_client g c)
  unfolding alloc_client update
  alloc_client-Inv g c v fresh = record {
    name_held = λ k a h.
        ground (arith, v.name_held k a h, v.name_online k a h, v.client_old (g.client_at a).id a);
    name_online = λ k a h. ground (arith, v.name_online k a h, v.client_old (g.client_at a).id a);
    online_named = λ a h. ground (arith, alloc-IsOnline g c a v fresh h, v.online_named a);
    id_held = λ i a h. ground (arith, v.id_held i a h, v.client_old i a h);
    room_keyed = v.room_keyed;
    room_named = v.room_named;
    member_online =
        λ k i a h. ground (arith, v.member_online k i a h, v.client_old (g.client_at a).id a);
    member_id = λ k i a h.
        ground
          (arith, v.member_id k i a h, v.member_online k i a h, v.client_old (g.client_at a).id a);
    member_key = λ k i a h.
        ground
          (arith, v.member_key k i a h, v.member_online k i a h, v.client_old (g.client_at a).id a);
    members_unique = v.members_unique;
    online_member = λ a h. ground (arith, alloc-IsOnline g c a v fresh h, v.online_member a);
    client_old = λ i a h. ground (arith, v.client_old i a h);
    numbered = v.numbered;
    room_old = v.room_old;
  }
