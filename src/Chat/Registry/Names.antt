-- ===== src/Chat/Registry/Names.antt =====
-- The invariant is kept when an online client takes a free name.
use livechat_server.Base.{
  ℕ, ◌≡◌, ◌≢◌, ◌⊎◌, Text, none, some, lookup, arith, update, text_eq_iff, lookup-insert,
  lookup-delete, insert, delete,
}
use livechat_server.Strings.{Unicode, to_lower}
use livechat_server.Chat.Client.{set_client_name}
use livechat_server.Chat.Registry.{Registry, client_name, put_client, take_name}
use livechat_server.Chat.Registry.Invariant.{Inv, IsOnline}

module _ ⦃u : Unicode⦄ where
  -- The registry when a client has taken a name.
  unfoldable pub renamed : Registry → ℕ → Text → Registry
  unfolding update set_client_name
  renamed g c name = record g {
    client_at = update g.client_at c (set_client_name (g.client_at c) name);
    names = insert (to_lower name) c (delete (to_lower (client_name g c)) g.names);
  }

  module _ (g : Registry) (c : ℕ) (name : Text) where
    id-renamed : (a : ℕ) → ((renamed g c name).client_at a).id ≡ (g.client_at a).id
    unfolding renamed
    id-renamed a = ground arith

    room_key-renamed :
        (a : ℕ) → ((renamed g c name).client_at a).room_key ≡ (g.client_at a).room_key
    unfolding renamed
    room_key-renamed a = ground arith

    lookup-renamed :
        (k : Text) (a : ℕ)
        → lookup k (renamed g c name).names ≡ some a
        → ((k ≡ to_lower name) × (a ≡ c))
          ⊎ ((k ≢ to_lower (client_name g c)) × (lookup k g.names ≡ some a))
    unfolding renamed
    lookup-renamed k a h = ground (
      arith,
      lookup-insert (to_lower name) k c (delete (to_lower (client_name g c)) g.names),
      lookup-delete (to_lower (client_name g c)) k g.names,
      text_eq_iff (to_lower name) k,
      text_eq_iff (to_lower (client_name g c)) k,
    )

    module _ (v : Inv g) (online : IsOnline g c)
        (free : lookup (to_lower name) g.names ≡ none) where
      renamed-IsOnline : (a : ℕ) → IsOnline g a → IsOnline (renamed g c name) a
      unfolding renamed
      renamed-IsOnline a h = rw (id-renamed a) h

      IsOnline-renamed : (a : ℕ) → IsOnline (renamed g c name) a → IsOnline g a
      unfolding renamed
      IsOnline-renamed a h = rw (id-renamed a) at h

      pub renamed-Inv : Inv (renamed g c name)
      unfolding renamed
      renamed-Inv = record {
        name_held = λ k a h. ground (arith, lookup-renamed k a h, v.name_held k a);
        name_online =
            λ k a h. renamed-IsOnline a (ground (arith, lookup-renamed k a h, v.name_online k a));
        online_named = λ a h. ground (
          arith,
          IsOnline-renamed a h,
          v.online_named a,
          v.online_named c,
          lookup-insert (to_lower name) (to_lower name) c
              (delete (to_lower (client_name g c)) g.names),
          lookup-insert (to_lower name) (to_lower (client_name g a)) c
              (delete (to_lower (client_name g c)) g.names),
          lookup-delete (to_lower (client_name g c)) (to_lower (client_name g a)) g.names,
          text_eq_iff (to_lower name) (to_lower name),
          text_eq_iff (to_lower name) (to_lower (client_name g a)),
          text_eq_iff (to_lower (client_name g c)) (to_lower (client_name g a)),
        );
        id_held = λ i a h. ground (arith, v.id_held i a h, id-renamed a);
        room_keyed = v.room_keyed;
        room_named = v.room_named;
        member_online = λ k i a h. renamed-IsOnline a (v.member_online k i a h);
        member_id = λ k i a h. ground (arith, v.member_id k i a h, id-renamed a);
        member_key = λ k i a h. ground (arith, v.member_key k i a h, room_key-renamed a);
        members_unique = v.members_unique;
        online_member =
            λ a h. rw (id-renamed a, room_key-renamed a) (v.online_member a (IsOnline-renamed a h));
        client_old = v.client_old;
        numbered = v.numbered;
        room_old = v.room_old;
      }

  -- The critical section of `cmdNick` and the write of the name behind it, done without a break.
  pub take_name-renamed :
      (g : Registry) (c : ℕ) (name : Text) (g' : Registry)
      → take_name g c (client_name g c) name ≡ some g'
      → (lookup (to_lower name) g.names ≡ none)
        × (put_client g' c (set_client_name (g'.client_at c) name) ≡ renamed g c name)
  unfolding take_name put_client renamed
  take_name-renamed g c name g' h = ground arith
