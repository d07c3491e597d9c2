-- ===== src/Chat/Registry/Moves.antt =====
-- `moveClientRoom` keeps the invariant, and what it returns.
use livechat_server.Base.{
  ℕ, ◌≡◌, ◌≢◌, inl, inr, true, false, [], ◌∷◌, Text, some, lookup, arith, refl, if◌then◌else◌,
  text_eq_iff, Option-cases, ℤ, Bool-cases, is_nil, text_eq, ap,
}
use livechat_server.Strings.{Unicode, to_lower}
use livechat_server.Chat.Util.{normalize_room_key}
use livechat_server.Chat.Util.Names.{IsRoomName}
use livechat_server.Chat.Room.{new_room}
use livechat_server.Chat.Registry.{
  put_room, put_client, Registry, Moved, room_for_client, create_room, get_or_create_room,
  switch_room, move_client_room,
}
use livechat_server.Chat.Registry.Invariant.{Inv, IsOnline}
use livechat_server.Chat.Registry.Create.{created-Inv, created-here}
use livechat_server.Chat.Registry.Switch.{
  switched-Inv, IsOnline-switch, switch-rooms, switch-key, switch-room_key,
}

module _ ⦃u : Unicode⦄ where
  key-ne-nil : (name : Text) → IsRoomName name → is_nil (normalize_room_key name) ≡ false
  unfolding normalize_room_key to_lower
  key-ne-nil name n = rw n.trimmed (not_nil name n.filled)
    where
      not_nil : (s : Text) → is_nil s ≡ false → is_nil (to_lower s) ≡ false
      not_nil [] h = h
      not_nil (c ∷ s) h = refl

  new_room-key :
      (name : Text) (limit : ℤ)
      → IsRoomName name
      → (new_room name limit).key ≡ normalize_room_key name
  unfolding new_room
  new_room-key name limit n = ground (arith, n.trimmed, n.filled)

  -- The registry once the wanted room is there.
  abbrev ready : Registry → Text → ℤ → Registry × ℕ
  ready g name limit = get_or_create_room g (normalize_room_key name) name limit

  record Ready (g : Registry) (c : ℕ) (g' : Registry) (room : ℕ) : Type 0 where
    inv : Inv g'
    same : (g'.client_at ≡ g.client_at) × (g'.clients ≡ g.clients) × (g'.names ≡ g.names)
    here : lookup (g'.room_at room).key g'.rooms ≡ some room

  ready-Ready :
      (g : Registry) (c : ℕ) (name : Text) (limit : ℤ)
      → Inv g
      → IsRoomName name
      → Ready g c (ready g name limit).0 (ready g name limit).1
  unfolding get_or_create_room
  ready-Ready g c name limit v n = elim (Option-cases (lookup (normalize_room_key name) g.rooms)) [
    | inl e ↦
        rw (e, get_or_create_room)
          (record {
            inv = created-Inv g (normalize_room_key name) name limit v e named keyed;
            same = unfold create_room in (refl, refl, refl);
            here = created-here g (normalize_room_key name) name limit v e named keyed;
          })
    | inr (r, e) ↦
        rw (e, get_or_create_room)
          (record {
            inv = v;
            same = (refl, refl, refl);
            here = rw (v.room_keyed (normalize_room_key name) r e) e;
          })
  ]
    where
      named : normalize_room_key name ≢ []
      named = λ e. cc (ap is_nil e, key-ne-nil name n)

      keyed : (new_room name limit).key ≡ normalize_room_key name
      keyed = new_room-key name limit n

  -- What holds of the result of a move of an online client.
  pub record HasMoved (c : ℕ) (m : Moved) : Type 0 where
    pub inv : Inv m.registry
    pub online : IsOnline m.registry c
    pub room_here : lookup (m.registry.room_at m.room).key m.registry.rooms ≡ some m.room
    pub previous_here :
        (p : ℕ) → m.previous ≡ some p → lookup (m.registry.room_at p).key m.registry.rooms ≡ some p
    pub in_room : (m.registry.client_at c).room_key ≡ (m.registry.room_at m.room).key

  switch-previous :
      (g : Registry) (c room p : ℕ)
      → Inv g
      → (switch_room g c room).1 ≡ some p
      → lookup (g.room_at p).key g.rooms ≡ some p
  unfolding switch_room room_for_client
  switch-previous g c room p v h = ground (arith, v.room_keyed (g.client_at c).room_key p)

  moved : Registry → ℕ → ℕ → Moved
  unfolding switch_room
  moved g c room =
      if text_eq (g.client_at c).room_key (g.room_at room).key
      then record { registry = g; room = room; previous = some room; already = true }
      else record {
        registry = (switch_room g c room).0;
        room = room;
        previous = (switch_room g c room).1;
        already = false;
      }

  moved-HasMoved :
      (g : Registry) (c room : ℕ)
      → Inv g
      → IsOnline g c
      → lookup (g.room_at room).key g.rooms ≡ some room
      → HasMoved c (moved g c room)
  unfolding moved
  moved-HasMoved g c room v on here =
      elim (Bool-cases (text_eq (g.client_at c).room_key (g.room_at room).key)) [
        | inl e ↦ rw e (record {
          inv = v;
          online = on;
          room_here = here;
          previous_here = λ p h. ground arith;
          in_room = (text_eq_iff _ _).0 e;
        })
        | inr e ↦ rw e (record {
          inv = switched-Inv g c room v here (λ same. cc ((text_eq_iff _ _).1 same, e)) on;
          online = IsOnline-switch g c room v here (λ same. cc ((text_eq_iff _ _).1 same, e)) c on;
          room_here = ground (arith, switch-rooms g c room, switch-key g c room room);
          previous_here = λ p h.
              ground (
                arith,
                switch-rooms g c room,
                switch-key g c room p,
                switch-previous g c room p v h,
              );
          in_room = ground (arith, switch-room_key g c room c, switch-key g c room room);
        })
      ]

  move-moved :
      (lobby : Text) (limit : ℤ) (g : Registry) (c : ℕ) (name : Text)
      → IsRoomName name
      → move_client_room lobby limit g c name
        ≡ moved (ready g name limit).0 c (ready g name limit).1
  unfolding move_client_room moved
  move-moved lobby limit g c name n = rw (key-ne-nil name n)

  -- `moveClientRoom` keeps the invariant, and puts the client into the room that it returns.
  pub move_client_room-HasMoved :
      (lobby : Text) (limit : ℤ) (g : Registry) (c : ℕ) (name : Text)
      → Inv g
      → IsOnline g c
      → IsRoomName name
      → HasMoved c (move_client_room lobby limit g c name)
  move_client_room-HasMoved lobby limit g c name v on n = rw (move-moved lobby limit g c name n) (
      let r = ready-Ready g c name limit v n in
      moved-HasMoved (ready g name limit).0 c (ready g name limit).1 r.inv (ground (arith, r.same))
        r.here)

  pub move-next :
      (lobby : Text) (limit : ℤ) (g : Registry) (c : ℕ) (name : Text)
      → (move_client_room lobby limit g c name).registry.next_client ≡ g.next_client
  unfolding move_client_room get_or_create_room create_room switch_room put_room put_client
  move-next lobby limit g c name = ground arith
