-- ===== src/Chat/Registry/Create.antt =====
-- The invariant is kept when a room is made.
use livechat_server.Base.{
  ◌≡◌, ◌≢◌, inl, inr, [], Text, none, some, lookup, arith, update, text_eq_iff, lookup-insert,
  Option-cases, ℤ,
}
use livechat_server.Strings.{Unicode}
use livechat_server.Chat.Room.{new_room}
use livechat_server.Chat.Registry.{Registry, create_room}
use livechat_server.Chat.Registry.Invariant.{Inv, members_under}

module _ ⦃u : Unicode⦄ (g : Registry) (key name : Text) (limit : ℤ) (v : Inv g)
    (absent : lookup key g.rooms ≡ none) (named : key ≢ [])
    (keyed : (new_room name limit).key ≡ key) where
  abbrev pub created : Registry
  created = create_room g key name limit

  pub created-members : (k : Text) → members_under k created ≡ members_under k g
  unfolding create_room update new_room
  created-members k = elim (Option-cases (lookup k g.rooms)) [
    | inl e ↦ ground (arith, lookup-insert key k g.next_room g.rooms)
    | inr (r, e) ↦
        ground (arith, lookup-insert key k g.next_room g.rooms, text_eq_iff key k, v.room_old k r e)
  ]

  pub created-Inv : Inv created
  unfolding create_room update
  created-Inv = record {
    name_held = v.name_held;
    name_online = v.name_online;
    online_named = v.online_named;
    id_held = v.id_held;
    room_keyed = λ k r h. ground (
      arith,
      lookup-insert key k g.next_room g.rooms,
      text_eq_iff key k,
      v.room_keyed k r,
      v.room_old k r,
    );
    room_named =
        ground (arith, lookup-insert key [] g.next_room g.rooms, text_eq_iff key [], v.room_named);
    member_online = λ k i c e. v.member_online k i c (rw (created-members k) at e);
    member_id = λ k i c e. v.member_id k i c (rw (created-members k) at e);
    member_key = λ k i c e. v.member_key k i c (rw (created-members k) at e);
    members_unique = λ k. rw (created-members k) (v.members_unique k);
    online_member = λ c h. rw (created-members (g.client_at c).room_key) (v.online_member c h);
    client_old = v.client_old;
    numbered = v.numbered;
    room_old = λ k r h. ground (arith, lookup-insert key k g.next_room g.rooms, v.room_old k r);
  }

  pub created-here : lookup (created.room_at g.next_room).key created.rooms ≡ some g.next_room
  unfolding create_room update
  created-here =
      ground (arith, keyed, lookup-insert key key g.next_room g.rooms, text_eq_iff key key)
