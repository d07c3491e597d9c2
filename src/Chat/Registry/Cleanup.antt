-- ===== src/Chat/Registry/Cleanup.antt =====
-- The invariant is kept when an empty room is removed.
use livechat_server.Base.{
  ℕ, ◌≡◌, inl, inr, [], Text, some, lookup, arith, text_eq_iff, lookup-delete, Option-cases,
}
use livechat_server.Strings.{Unicode}
use livechat_server.Chat.Registry.{Registry, drop_if_empty, cleanup_room}
use livechat_server.Chat.Registry.Invariant.{Inv, members_under}
use livechat_server.Chat.Registry.Exit.{nil_of_is_empty}

-- Removing a room that has no member, under its own key, keeps the invariant.
module _ ⦃u : Unicode⦄ (lobby : Text) (g : Registry) (room : ℕ) where
  abbrev pub cleaned : Registry
  cleaned = cleanup_room lobby g room

  pub cleanup-same :
      (cleaned.clients ≡ g.clients)
      × (cleaned.names ≡ g.names)
      × (cleaned.client_at ≡ g.client_at)
      × (cleaned.room_at ≡ g.room_at)
      × (cleaned.next_client ≡ g.next_client)
      × (cleaned.next_room ≡ g.next_room)
  unfolding cleanup_room drop_if_empty
  cleanup-same = ground arith

  pub cleanup-rooms :
      (k : Text) (r : ℕ) → lookup k cleaned.rooms ≡ some r → lookup k g.rooms ≡ some r
  unfolding cleanup_room drop_if_empty
  cleanup-rooms k r h = ground (arith, lookup-delete (g.room_at room).key k g.rooms)

  module _ (here : lookup (g.room_at room).key g.rooms ≡ some room) where
    pub cleanup-members : (k : Text) → members_under k cleaned ≡ members_under k g
    unfolding cleanup_room drop_if_empty
    cleanup-members k = ground (
      arith,
      lookup-delete (g.room_at room).key k g.rooms,
      text_eq_iff (g.room_at room).key k,
      nil_of_is_empty (g.room_at room),
    )

    pub cleaned-Inv : Inv g → Inv cleaned
    cleaned-Inv v = record {
      name_held = λ k a h. ground (arith, cleanup-same, v.name_held k a);
      name_online = λ k a h. ground (arith, cleanup-same, v.name_online k a);
      online_named = λ a h. ground (arith, cleanup-same, v.online_named a);
      id_held = λ i a h. ground (arith, cleanup-same, v.id_held i a);
      room_keyed = λ k r h. ground (arith, cleanup-same, v.room_keyed k r (cleanup-rooms k r h));
      room_named = elim (Option-cases (lookup [] cleaned.rooms)) [
        | inl e ↦ e
        | inr (r, e) ↦ ground (arith, cleanup-rooms [] r e, v.room_named)
      ];
      member_online =
          λ k i a h. ground (arith, cleanup-same, cleanup-members k, v.member_online k i a);
      member_id = λ k i a h. ground (arith, cleanup-same, cleanup-members k, v.member_id k i a);
      member_key = λ k i a h. ground (arith, cleanup-same, cleanup-members k, v.member_key k i a);
      members_unique = λ k. rw (cleanup-members k) (v.members_unique k);
      online_member = λ a h.
          ground (arith, cleanup-same, cleanup-members (g.client_at a).room_key, v.online_member a);
      client_old = λ i a h. ground (arith, cleanup-same, v.client_old i a);
      numbered = λ i a h. ground (arith, cleanup-same, v.numbered i a);
      room_old = λ k r h. ground (arith, cleanup-same, v.room_old k r (cleanup-rooms k r h));
    }
