-- ===== src/Chat/Session/Histories.antt =====
-- What holds after every history of the server.
use livechat_server.Base.{
  ℕ, ◌+◌, ◌^◌, ◌<◌, ◌≡◌, ◌≢◌, ◌↔◌, ◌⊎◌, inl, inr, refl, true, List, [], ◌∷◌, Text, some, arith,
  Bool-cases, lookup,
}
use livechat_server.Strings.{Unicode, to_lower}
use livechat_server.Chat.Config.{Config}
use livechat_server.Chat.Registry.{Registry, client_name}
use livechat_server.Chat.Registry.Invariant.{Inv, IsOnline, IsMember, members_under}
use livechat_server.Chat.Server.{Server, new_server, empty_registry}
use livechat_server.Chat.Server.Frames.{send_system-OnlyLinks}
use livechat_server.Chat.Server.Sound.{
  IsSound, OnlyLinks-IsSound, shutdown-IsSound, handle_conn-IsSound,
}
use livechat_server.Chat.Commands.Sound.{handle_input-IsSound}
use livechat_server.Chat.Session.{
  Event, connects, reads, writes, write_fails, idles, hangs_up, step, run,
}

-- A session that is over, or whose client is in the client table.
abbrev pub IsKnown : Server → ℕ → Type 0
IsKnown s c = ((s.link_at c).done ≡ true) ⊎ IsOnline s.reg c

-- Which events the theorems are about: the sequence number has not wrapped around, lines are read
-- from online clients only, and the other events belong to sessions that were started.
abbrev pub IsOrderly : Server → Event → Type 0
IsOrderly s connects = s.next_id + 1 < 2 ^ 64
IsOrderly s (reads c line) = IsOnline s.reg c
IsOrderly s (writes c) = Unit {0}
IsOrderly s (write_fails c) = IsKnown s c
IsOrderly s (idles c) = IsKnown s c
IsOrderly s (hangs_up c) = IsKnown s c

module _ ⦃u : Unicode⦄ where
  abbrev pub AreOrderly : Server → List Event → Type 0
  AreOrderly s [] = Unit {0}
  AreOrderly s (e ∷ es) = IsOrderly s e × AreOrderly (step s e) es

  idles-IsSound : (s : Server) (c : ℕ) → IsSound s → IsKnown s c → IsSound (step s (idles c))
  unfolding step
  idles-IsSound s c v k = elim (Bool-cases (s.link_at c).done) [
    | inl e ↦ rw e v
    | inr e ↦ rw e (
        let o = send_system-OnlyLinks s c _ in
        shutdown-IsSound _ c _ (OnlyLinks-IsSound o v) (inr (ground (arith, o.reg, k))))
  ]

  -- Every orderly event keeps the server's invariant.
  pub step-IsSound : (s : Server) (e : Event) → IsSound s → IsOrderly s e → IsSound (step s e)
  unfolding step
  step-IsSound s connects v o = handle_conn-IsSound s v o
  step-IsSound s (reads c line) v o = handle_input-IsSound s c line v o
  step-IsSound s (writes c) v o = record { inv = v.inv; counted = v.counted }
  step-IsSound s (write_fails c) v o = shutdown-IsSound s c _ v o
  step-IsSound s (idles c) v o = idles-IsSound s c v o
  step-IsSound s (hangs_up c) v o = shutdown-IsSound s c _ v o

  pub run-IsSound :
      (s : Server) (es : List Event) → IsSound s → AreOrderly s es → IsSound (run s es)
  unfolding run
  run-IsSound s [] v o = v
  run-IsSound s (e ∷ es) v o = run-IsSound (step s e) es (step-IsSound s e v o.0) o.1

  lookup-nil : (k : Text) (c : ℕ) → lookup {V = ℕ} k [] ≡ some c → ⊥
  unfolding lookup
  lookup-nil k c h = cc

  no_member : (k i : Text) (c : ℕ) → lookup i (members_under k empty_registry) ≡ some c → ⊥
  unfolding lookup
  no_member k i c h = cc

  pub new_server-IsSound : (cfg : Config) → IsSound (new_server cfg)
  unfolding new_server
  new_server-IsSound cfg = record {
    inv = record {
      name_held = λ k c h. absurd (lookup-nil k c h);
      name_online = λ k c h. absurd (lookup-nil k c h);
      online_named = λ c h. absurd (lookup-nil [] c h);
      id_held = λ i c h. absurd (lookup-nil i c h);
      room_keyed = λ k r h. absurd (lookup-nil k r h);
      room_named = unfold lookup in refl;
      member_online = λ k i c h. absurd (no_member k i c h);
      member_id = λ k i c h. absurd (no_member k i c h);
      member_key = λ k i c h. absurd (no_member k i c h);
      members_unique = λ k. unfold lookup in tt;
      online_member = λ c h. absurd (lookup-nil [] c h);
      client_old = λ i c h. absurd (lookup-nil i c h);
      numbered = λ i c h. absurd (lookup-nil i c h);
      room_old = λ k r h. absurd (lookup-nil k r h);
    };
    counted = refl;
  }

  module _ (cfg : Config) (es : List Event) (o : AreOrderly (new_server cfg) es) where
    abbrev reached : Registry
    reached = (run (new_server cfg) es).reg

    reached-Inv : Inv reached
    reached-Inv = (run-IsSound (new_server cfg) es (new_server-IsSound cfg) o).inv

    -- After every orderly history of a new server, two online clients whose names agree up to case
    -- are one client.
    pub names_unique :
        (a b : ℕ)
        → IsOnline reached a
        → IsOnline reached b
        → to_lower (client_name reached a) ≡ to_lower (client_name reached b)
        → a ≡ b
    names_unique a b h k e =
        ground (arith, reached-Inv.online_named a h, reached-Inv.online_named b k)

    -- After every orderly history of a new server, a name is taken exactly if an online client has
    -- it, up to case; and the client under a name is the one that has it.
    pub names-IsOnline :
        (k : Text) (a : ℕ)
        → (lookup k reached.names ≡ some a)
          ↔ (IsOnline reached a × (k ≡ to_lower (client_name reached a)))
    names-IsOnline k a = (
      λ h. (reached-Inv.name_online k a h, reached-Inv.name_held k a h),
      λ h. ground (arith, reached-Inv.online_named a h.0, h.1),
    )

    -- After every orderly history of a new server, a client that is a member of a room is online,
    -- the room's key is the one that the client keeps, and it is a member of no other room, nor
    -- twice of this one.
    pub one_room :
        (k l i j : Text) (a : ℕ)
        → lookup i (members_under k reached) ≡ some a
        → lookup j (members_under l reached) ≡ some a
        → (k ≡ l) × (i ≡ j) × (k ≡ (reached.client_at a).room_key) × IsOnline reached a
    one_room k l i j a h m = (
      ground (arith, reached-Inv.member_key k i a h, reached-Inv.member_key l j a m),
      ground (arith, reached-Inv.member_id k i a h, reached-Inv.member_id l j a m),
      ground (arith, reached-Inv.member_key k i a h),
      reached-Inv.member_online k i a h,
    )

    -- After every orderly history of a new server, an online client that takes itself to be in a
    -- room is a member of a room under that key.
    pub IsMember-of_room_key :
        (a : ℕ) → IsOnline reached a → (reached.client_at a).room_key ≢ [] → IsMember reached a
    IsMember-of_room_key a h ne = ground (arith, reached-Inv.online_member a h)
