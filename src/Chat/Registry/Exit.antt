-- ===== src/Chat/Registry/Exit.antt =====
-- The invariant is kept when a client is removed.
use livechat_server.Base.{
  ℕ, ◌≡◌, ◌≢◌, ◌⊎◌, inl, inr, Bool, true, false, [], ◌∷◌, Text, none, some, lookup, arith, update,
  text_eq_iff, lookup-delete, delete, refl, StrMap, UniqueKeys, delete-UniqueKeys, length, ◌==◌,
  text_eq, if◌then◌else◌, Option-cases,
}
use livechat_server.Strings.{Unicode, to_lower}
use livechat_server.Chat.Room.{Room, is_empty, remove_member}
use livechat_server.Chat.Registry.{
  Registry, client_name, put_room, drop_if_empty, unregister, room_for_client,
}
use livechat_server.Chat.Registry.Invariant.{
  Inv, IsOnline, members_under, NoIdleRoom, online_unique,
}

pub nil_of_is_empty : (r : Room) → is_empty r ≡ true → r.members ≡ []
unfolding is_empty
nil_of_is_empty r h = nil_of r.members h
  where
    nil_of : (m : StrMap ℕ) → (length m == 0) ≡ true → m ≡ []
    nil_of [] h = refl
    nil_of (e ∷ m) h = ground arith

pub delete-nil : (k : Text) → delete {V = ℕ} k [] ≡ []
unfolding delete
delete-nil k = refl

pub if-UniqueKeys :
    (b : Bool) (m n : StrMap ℕ) → UniqueKeys m → UniqueKeys n → UniqueKeys (if b then m else n)
if-UniqueKeys true m n h k = h
if-UniqueKeys false m n h k = k

module _ ⦃u : Unicode⦄ (lobby : Text) (g : Registry) (c : ℕ) where
  abbrev pub exited : Registry
  exited = (unregister lobby g c).0

  pub exit-clients : exited.clients ≡ delete (g.client_at c).id g.clients
  unfolding unregister drop_if_empty put_room
  exit-clients = ground arith

  pub exit-names : exited.names ≡ delete (to_lower (client_name g c)) g.names
  unfolding unregister drop_if_empty put_room
  exit-names = ground arith

  pub exit-client_at : exited.client_at ≡ g.client_at
  unfolding unregister drop_if_empty put_room
  exit-client_at = ground arith

  pub exit-next : (exited.next_client ≡ g.next_client) × (exited.next_room ≡ g.next_room)
  unfolding unregister drop_if_empty put_room
  exit-next = ground arith

  pub exit-rooms : (k : Text) (r : ℕ) → lookup k exited.rooms ≡ some r → lookup k g.rooms ≡ some r
  unfolding unregister drop_if_empty put_room
  exit-rooms k r h = ground (arith, lookup-delete (g.client_at c).room_key k g.rooms)

  exit-key : (r : ℕ) → (exited.room_at r).key ≡ (g.room_at r).key
  unfolding unregister drop_if_empty put_room update remove_member
  exit-key r = ground arith

  module _ (v : Inv g) where
    -- The tables lose the client and nothing else.
    exit-members :
        (k : Text)
        → members_under k exited ≡ (
            if text_eq (g.client_at c).room_key k
            then delete (g.client_at c).id (members_under k g)
            else members_under k g)
    unfolding unregister drop_if_empty put_room update remove_member room_for_client
    exit-members k = elim (Option-cases (lookup (g.client_at c).room_key g.rooms)) [
      | inl e ↦ ground (
        arith,
        text_eq_iff (g.client_at c).room_key k,
        v.room_named,
        delete-nil (g.client_at c).id,
      )
      | inr (r, e) ↦ elim (Option-cases (lookup k g.rooms)) [
        | inl f ↦ ground (
          arith,
          text_eq_iff (g.client_at c).room_key k,
          v.room_named,
          lookup-delete (g.client_at c).room_key k g.rooms,
        )
        | inr (q, f) ↦ ground (
          arith,
          text_eq_iff (g.client_at c).room_key k,
          v.room_named,
          v.room_keyed (g.client_at c).room_key r e,
          v.room_keyed k q f,
          lookup-delete (g.client_at c).room_key k g.rooms,
          nil_of_is_empty
              (record (g.room_at r) { members = delete (g.client_at c).id (g.room_at r).members }),
        )
      ]
    ]

    pub exit-member :
        (k i : Text) (a : ℕ)
        → lookup i (members_under k exited) ≡ some a
        → (lookup i (members_under k g) ≡ some a) × (a ≢ c)
    exit-member k i a h = ground (
      arith,
      exit-members k,
      lookup-delete (g.client_at c).id i (members_under k g),
      text_eq_iff (g.client_at c).id i,
      text_eq_iff (g.client_at c).room_key k,
      v.member_id k i a,
      v.member_key k i a,
    )

    module _ (online : IsOnline g c) where
      member-exit :
          (k i : Text) (a : ℕ)
          → lookup i (members_under k g) ≡ some a
          → a ≢ c
          → lookup i (members_under k exited) ≡ some a
      member-exit k i a h ne = ground (
        arith,
        exit-members k,
        lookup-delete (g.client_at c).id i (members_under k g),
        text_eq_iff (g.client_at c).id i,
        v.member_id k i a h,
        v.member_online k i a h,
        online_unique g a c,
      )

      pub exit-IsOnline : (a : ℕ) → IsOnline exited a → IsOnline g a × (a ≢ c)
      exit-IsOnline a h = ground (
        arith,
        exit-clients,
        exit-client_at,
        lookup-delete (g.client_at c).id (g.client_at a).id g.clients,
        text_eq_iff (g.client_at c).id (g.client_at a).id,
      )

      IsOnline-exit : (a : ℕ) → IsOnline g a → a ≢ c → IsOnline exited a
      IsOnline-exit a h ne = ground (
        arith,
        exit-clients,
        exit-client_at,
        lookup-delete (g.client_at c).id (g.client_at a).id g.clients,
        text_eq_iff (g.client_at c).id (g.client_at a).id,
      )

      pub exit-name :
          (k : Text) (a : ℕ)
          → lookup k exited.names ≡ some a
          → (lookup k g.names ≡ some a) × (a ≢ c)
      exit-name k a h = ground (
        arith,
        exit-names,
        lookup-delete (to_lower (client_name g c)) k g.names,
        text_eq_iff (to_lower (client_name g c)) k,
        v.name_held k a,
      )

      exit-online_named :
          (a : ℕ) → IsOnline exited a → lookup (to_lower (client_name g a)) exited.names ≡ some a
      exit-online_named a h = ground (
        arith,
        exit-names,
        exit-IsOnline a h,
        v.online_named a,
        v.online_named c online,
        lookup-delete (to_lower (client_name g c)) (to_lower (client_name g a)) g.names,
        text_eq_iff (to_lower (client_name g c)) (to_lower (client_name g a)),
      )

      exit-online_member :
          (a : ℕ)
          → IsOnline exited a
          → ((g.client_at a).room_key ≡ [])
            ⊎ (lookup (g.client_at a).id (members_under (g.client_at a).room_key exited) ≡ some a)
      exit-online_member a h = ground (
        arith,
        exit-IsOnline a h,
        v.online_member a,
        member-exit (g.client_at a).room_key (g.client_at a).id a,
      )

      exit-room_named : lookup [] exited.rooms ≡ none
      exit-room_named = elim (Option-cases (lookup [] exited.rooms)) [
        | inl e ↦ e
        | inr (r, e) ↦ ground (arith, exit-rooms [] r e, v.room_named)
      ]

      -- Removing an online client keeps the invariant.
      pub exited-Inv : Inv exited
      exited-Inv = record {
        name_held = λ k a h. ground (arith, exit-name k a h, v.name_held k a, exit-client_at);
        name_online = λ k a h.
            let (held, ne) = exit-name k a h in IsOnline-exit a (v.name_online k a held) ne;
        online_named = λ a h. ground (arith, exit-client_at, exit-online_named a h);
        id_held = λ i a h. ground (
          arith,
          exit-clients,
          exit-client_at,
          lookup-delete (g.client_at c).id i g.clients,
          v.id_held i a,
        );
        room_keyed = λ k r h. ground (arith, exit-key r, v.room_keyed k r (exit-rooms k r h));
        room_named = exit-room_named;
        member_online = λ k i a h.
            let (held, ne) = exit-member k i a h in IsOnline-exit a (v.member_online k i a held) ne;
        member_id =
            λ k i a h. ground (arith, exit-member k i a h, v.member_id k i a, exit-client_at);
        member_key =
            λ k i a h. ground (arith, exit-member k i a h, v.member_key k i a, exit-client_at);
        members_unique = λ k.
            rw (exit-members k) (
              if-UniqueKeys _ _ _ (delete-UniqueKeys _ _ (v.members_unique k))
                (v.members_unique k));
        online_member = λ a h. ground (arith, exit-client_at, exit-online_member a h);
        client_old = λ i a h. ground (
          arith,
          exit-clients,
          exit-next,
          lookup-delete (g.client_at c).id i g.clients,
          v.client_old i a,
        );
        numbered = λ i a h.
            ground
              (arith, exit-clients, lookup-delete (g.client_at c).id i g.clients, v.numbered i a);
        room_old = λ k r h. ground (arith, exit-next, v.room_old k r (exit-rooms k r h));
      }

    -- No room that the client leaves is kept without a member, unless it is the lobby.
    pub exited-NoIdleRoom : NoIdleRoom lobby g → NoIdleRoom lobby exited
    unfolding unregister drop_if_empty put_room update remove_member room_for_client
    exited-NoIdleRoom kept k r h = elim (Option-cases (lookup (g.client_at c).room_key g.rooms)) [
      | inl e ↦ ground (arith, kept k r)
      | inr (q, e) ↦ ground (
        arith,
        kept k r (exit-rooms k r h),
        v.room_keyed (g.client_at c).room_key q e,
        v.room_keyed k r (exit-rooms k r h),
        lookup-delete (g.client_at c).room_key k g.rooms,
        text_eq_iff (g.client_at c).room_key k,
      )
    ]
