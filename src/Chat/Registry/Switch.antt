-- ===== src/Chat/Registry/Switch.antt =====
-- The invariant is kept when a client changes rooms.
use native.Mathlib.Decide.{ℕ_discrete}
use livechat_server.Base.{
  insert-UniqueKeys, delete-UniqueKeys, ℕ, ◌≡◌, ◌==◌, ◌≢◌, ◌⊎◌, inl, inr, [], Text, some, lookup,
  arith, update, text_eq_iff, lookup-insert, lookup-delete, insert, delete, text_eq, if◌then◌else◌,
  Option-cases,
}
use livechat_server.Strings.{Unicode}
use livechat_server.Chat.Room.{remove_member, add_member}
use livechat_server.Chat.Client.{set_room}
use livechat_server.Chat.Registry.{Registry, put_room, put_client, room_for_client, switch_room}
use livechat_server.Chat.Registry.Invariant.{Inv, IsOnline, IsMember, members_under, online_unique}
use livechat_server.Chat.Registry.Exit.{if-UniqueKeys, delete-nil}

module _ ⦃u : Unicode⦄ (g : Registry) (c room : ℕ) where
  abbrev pub switched : Registry
  switched = (switch_room g c room).0

  abbrev pub new_key : Text
  new_key = (g.room_at room).key

  abbrev pub old_key : Text
  old_key = (g.client_at c).room_key

  pub switch-rooms : switched.rooms ≡ g.rooms
  unfolding switch_room put_room put_client
  switch-rooms = ground arith

  pub switch-clients : switched.clients ≡ g.clients
  unfolding switch_room put_room put_client
  switch-clients = ground arith

  pub switch-names : switched.names ≡ g.names
  unfolding switch_room put_room put_client
  switch-names = ground arith

  pub switch-next : (switched.next_client ≡ g.next_client) × (switched.next_room ≡ g.next_room)
  unfolding switch_room put_room put_client
  switch-next = ground arith

  pub switch-client :
      (a : ℕ)
      → ((switched.client_at a).id ≡ (g.client_at a).id)
        × ((switched.client_at a).name ≡ (g.client_at a).name)
  unfolding switch_room put_room put_client update set_room
  switch-client a = ground arith

  pub switch-key : (r : ℕ) → (switched.room_at r).key ≡ (g.room_at r).key
  unfolding switch_room put_room put_client update remove_member add_member
  switch-key r = ground arith

  pub switch-room_key :
      (a : ℕ)
      → (switched.client_at a).room_key ≡ (if a == c then new_key else (g.client_at a).room_key)
  unfolding switch_room put_room put_client update set_room remove_member add_member
  switch-room_key a = ground arith

  module _ (v : Inv g) (here : lookup new_key g.rooms ≡ some room)
      (other : (g.client_at c).room_key ≢ new_key) where
    pub switch-members :
        (k : Text)
        → members_under k switched ≡ (
            if text_eq k new_key
            then insert (g.client_at c).id c (members_under k g)
            else if text_eq k (g.client_at c).room_key
            then delete (g.client_at c).id (members_under k g)
            else members_under k g)
    unfolding switch_room put_room put_client update remove_member add_member room_for_client
    switch-members k = elim (Option-cases (lookup (g.client_at c).room_key g.rooms)) [
      | inl e ↦ elim (Option-cases (lookup k g.rooms)) [
        | inl f ↦
            ground
              (arith, text_eq_iff k new_key, text_eq_iff k old_key, delete-nil (g.client_at c).id)
        | inr (q, f) ↦ ground (
          arith,
          text_eq_iff k new_key,
          text_eq_iff k old_key,
          v.room_keyed new_key room here,
          v.room_keyed k q f,
        )
      ]
      | inr (p, e) ↦ elim (Option-cases (lookup k g.rooms)) [
        | inl f ↦
            ground
              (arith, text_eq_iff k new_key, text_eq_iff k old_key, delete-nil (g.client_at c).id)
        | inr (q, f) ↦ ground (
          arith,
          text_eq_iff k new_key,
          text_eq_iff k old_key,
          v.room_named,
          v.room_keyed old_key p e,
          v.room_keyed new_key room here,
          v.room_keyed k q f,
        )
      ]
    ]

    pub switch-member :
        (k i : Text) (a : ℕ)
        → lookup i (members_under k switched) ≡ some a
        → ((a ≡ c) × (k ≡ new_key) × (i ≡ (g.client_at c).id))
          ⊎ ((a ≢ c) × (lookup i (members_under k g) ≡ some a))
    switch-member k i a h = ground (
      arith,
      switch-members k,
      text_eq_iff k new_key,
      text_eq_iff k old_key,
      lookup-insert (g.client_at c).id i c (members_under k g),
      lookup-delete (g.client_at c).id i (members_under k g),
      text_eq_iff (g.client_at c).id i,
      v.member_id k i a,
      v.member_key k i a,
    )

    pub member-switch_self : lookup (g.client_at c).id (members_under new_key switched) ≡ some c
    member-switch_self = ground (
      arith,
      switch-members new_key,
      text_eq_iff new_key new_key,
      lookup-insert (g.client_at c).id (g.client_at c).id c (members_under new_key g),
      text_eq_iff (g.client_at c).id (g.client_at c).id,
    )

    pub member-switch :
        (k i : Text) (a : ℕ)
        → IsOnline g c
        → a ≢ c
        → lookup i (members_under k g) ≡ some a
        → lookup i (members_under k switched) ≡ some a
    member-switch k i a online ne h = ground (
      arith,
      switch-members k,
      text_eq_iff k new_key,
      text_eq_iff k old_key,
      lookup-insert (g.client_at c).id i c (members_under k g),
      lookup-delete (g.client_at c).id i (members_under k g),
      text_eq_iff (g.client_at c).id i,
      v.member_id k i a h,
      v.member_online k i a h,
      online_unique g a c,
    )

    pub switch-IsOnline : (a : ℕ) → IsOnline switched a → IsOnline g a
    switch-IsOnline a h = ground (arith, switch-clients, switch-client a)

    pub IsOnline-switch : (a : ℕ) → IsOnline g a → IsOnline switched a
    IsOnline-switch a h = ground (arith, switch-clients, switch-client a)

    pub switch-online-IsMember :
        (a : ℕ)
        → IsOnline g c
        → IsOnline switched a
        → ((switched.client_at a).room_key ≡ []) ⊎ IsMember switched a
    switch-online-IsMember a online h = elim (ℕ_discrete a c) [
      | yes e ↦ inr (ground (arith, switch-client a, switch-room_key a, member-switch_self))
      | no ne ↦ ground (
        arith,
        switch-client a,
        switch-room_key a,
        v.online_member a (switch-IsOnline a h),
        member-switch (g.client_at a).room_key (g.client_at a).id a online ne,
      )
    ]

    -- Changing rooms keeps the invariant.
    pub switched-Inv : IsOnline g c → Inv switched
    switched-Inv online = record {
      name_held = λ k a h. ground (arith, switch-names, switch-client a, v.name_held k a);
      name_online = λ k a h. IsOnline-switch a (v.name_online k a (ground (arith, switch-names)));
      online_named = λ a h.
          ground (arith, switch-names, switch-client a, v.online_named a (switch-IsOnline a h));
      id_held = λ i a h. ground (arith, switch-clients, switch-client a, v.id_held i a);
      room_keyed = λ k r h. ground (arith, switch-rooms, switch-key r, v.room_keyed k r);
      room_named = ground (arith, switch-rooms, v.room_named);
      member_online = λ k i a h.
          IsOnline-switch a (ground (arith, switch-member k i a h, v.member_online k i a));
      member_id =
          λ k i a h. ground (arith, switch-member k i a h, switch-client a, v.member_id k i a);
      member_key =
          λ k i a h. ground (arith, switch-member k i a h, switch-room_key a, v.member_key k i a);
      members_unique = λ k. rw (switch-members k) (
          if-UniqueKeys (text_eq k new_key) _ _
            (insert-UniqueKeys (g.client_at c).id c _ (v.members_unique k))
            (if-UniqueKeys (text_eq k old_key) _ _
              (delete-UniqueKeys (g.client_at c).id _ (v.members_unique k)) (v.members_unique k)));
      online_member = λ a h. switch-online-IsMember a online h;
      client_old = λ i a h. ground (arith, switch-clients, switch-next, v.client_old i a);
      numbered = λ i a h. ground (arith, switch-clients, v.numbered i a);
      room_old = λ k r h. ground (arith, switch-rooms, switch-next, v.room_old k r);
    }
