-- ===== src/Chat/Server/Sound.antt =====
-- The server's invariant, and that joining a room, leaving and connecting keep it.
use livechat_server.Base.{
  ℕ, suc, ◌+◌, ◌^◌, ◌<◌, ◌≡◌, refl, sym, ◌∙◌, Bool, true, false, Text, Option, none, some, arith,
  Bool-cases, inl, inr, ◌⊎◌, ◌==◌, is_nil, if◌then◌else◌, ap, ◌%◌, update, lookup,
}
use livechat_server.Strings.{Unicode, trim_space}
use livechat_server.Chat.Util.{Result, ok, err, sanitize_room_name}
use livechat_server.Chat.Util.Names.{sanitize_room_name_iff}
use livechat_server.Chat.Room.{append_history}
use livechat_server.Chat.Client.{Client, new_client, client_id, guest_name, new_link}
use livechat_server.Chat.Registry.{Registry, Moved, unregister, put_room, alloc_client}
use livechat_server.Chat.Registry.Invariant.{Inv, IsOnline}
use livechat_server.Chat.Registry.Clients.{
  put_room-Inv, add_client-Inv, add_client-IsOnline, alloc_client-Inv,
}
use livechat_server.Chat.Registry.Exit.{exited-Inv, exit-next}
use livechat_server.Chat.Registry.Cleanup.{cleaned-Inv, cleanup-same}
use livechat_server.Chat.Registry.Moves.{HasMoved, move_client_room-HasMoved, move-next}
use livechat_server.Chat.Server.{
  join_valid, Server, greet, broadcast_room, announce_join, after_leaving, enter_room, join_room,
  remove_client, shutdown, start, admit, handle_conn,
}
use livechat_server.Chat.Server.Frames.{
  OnlyLinks, OnlyLinks-trans, send_system-OnlyLinks, broadcast?-OnlyLinks, greet-OnlyLinks,
  announce_join-OnlyLinks,
}

module _ ⦃u : Unicode⦄ where
  pub record IsSound (s : Server) : Type 0 where
    pub inv : Inv s.reg
    pub counted : s.next_id ≡ s.next_client

  pub OnlyLinks-IsSound : {s t : Server} → OnlyLinks s t → IsSound s → IsSound t
  OnlyLinks-IsSound {s} {t} o v = record {
    inv = rw o.reg v.inv;
    counted = ground (arith, o.reg, o.next_id, v.counted);
  }

  pub broadcast-IsSound :
      (s : Server) (room : ℕ) (text : Text) (store : Bool) (exclude : Option ℕ)
      → IsSound s
      → IsSound (broadcast_room s room text store exclude)
  unfolding broadcast_room put_room append_history
  broadcast-IsSound s room text false exclude v = record { inv = v.inv; counted = v.counted }
  broadcast-IsSound s room text true exclude v = record {
    inv = put_room-Inv s.reg room (append_history (s.room_at room) text) v.inv refl refl;
    counted = v.counted;
  }

  after_leaving-IsSound :
      (s : Server) (c room : ℕ) (p : Option ℕ)
      → IsSound s
      → ((q : ℕ) → p ≡ some q → lookup (s.room_at q).key s.rooms ≡ some q)
      → IsSound (after_leaving s c room p)
  unfolding after_leaving broadcast_room
  after_leaving-IsSound s c room none v here = v
  after_leaving-IsSound s c room (some q) v here = elim (Bool-cases (q == room)) [
    | inl e ↦ rw e v
    | inr e ↦ rw e (record {
      inv = cleaned-Inv s.cfg.lobby_name s.reg q (here q refl) v.inv;
      counted = ground (arith, cleanup-same s.cfg.lobby_name s.reg q, v.counted);
    })
  ]

  enter_room-IsSound :
      (s : Server) (c : ℕ) (m : Moved) (announce : Bool)
      → HasMoved c m
      → s.next_id ≡ m.registry.next_client
      → IsSound (enter_room s c m announce)
  unfolding enter_room
  enter_room-IsSound s c m announce h counted = elim (Bool-cases m.already) [
    | inl e ↦ rw e (OnlyLinks-IsSound (send_system-OnlyLinks _ c _) entered)
    | inr e ↦ rw e (
        after_leaving-IsSound _ c m.room m.previous (OnlyLinks-IsSound told entered)
          λ q p. rw told.reg (h.previous_here q p))
  ]
    where
      s' : Server
      s' = record s { reg = m.registry }

      entered : IsSound s'
      entered = record { inv = h.inv; counted = counted }

      told : OnlyLinks s' (announce_join announce (greet s' c m.room) c m.room)
      told =
          OnlyLinks-trans (greet-OnlyLinks s' c m.room)
            (announce_join-OnlyLinks announce _ c m.room)

  join_valid-IsSound :
      (s : Server) (c : ℕ) (announce : Bool) (name : Text) (r : Result Text)
      → IsSound s
      → IsOnline s.reg c
      → sanitize_room_name name ≡ r
      → IsSound (join_valid s c announce r)
  unfolding join_valid
  join_valid-IsSound s c announce name (err e) v on h =
      OnlyLinks-IsSound (send_system-OnlyLinks s c _) v
  join_valid-IsSound s c announce name (ok n) v on h =
      enter_room-IsSound s c _ announce
        (move_client_room-HasMoved s.cfg.lobby_name s.cfg.history_limit s.reg c n v.inv on
          ((sanitize_room_name_iff name n).0 h).1)
        (v.counted ∙ sym (move-next s.cfg.lobby_name s.cfg.history_limit s.reg c n))

  -- Joining a room keeps the invariant.
  pub join_room-IsSound :
      (s : Server) (c : ℕ) (desired : Text) (announce : Bool)
      → IsSound s
      → IsOnline s.reg c
      → IsSound (join_room s c desired announce)
  unfolding join_room
  join_room-IsSound s c desired announce v on =
      join_valid-IsSound s c announce
        (if is_nil (trim_space desired) then s.cfg.lobby_name else desired) _ v on refl

  -- So does the end of a session.
  pub shutdown-IsSound :
      (s : Server) (c : ℕ) (reason : Text)
      → IsSound s
      → ((s.link_at c).done ≡ true) ⊎ IsOnline s.reg c
      → IsSound (shutdown s c reason)
  unfolding shutdown remove_client
  shutdown-IsSound s c reason v on = elim (Bool-cases (s.link_at c).done) [
    | inl e ↦ rw e v
    | inr e ↦ rw e (
        OnlyLinks-IsSound
          (broadcast?-OnlyLinks _ (unregister s.cfg.lobby_name s.reg c).1 _ (some c))
          (record {
            inv = exited-Inv s.cfg.lobby_name s.reg c v.inv (ground (arith, on));
            counted = ground (arith, exit-next s.cfg.lobby_name s.reg c, v.counted);
          }))
  ]

  start-IsSound : (s : Server) (c : ℕ) → IsSound s → IsOnline s.reg c → IsSound (start s c)
  unfolding start
  start-IsSound s c v on =
      let o = send_system-OnlyLinks s c _ in
      join_room-IsSound _ c s.cfg.lobby_name true (OnlyLinks-IsSound o v) (rw o.reg on)

  admit-IsSound :
      (s : Server) (c : ℕ) (r : Option Registry)
      → IsSound s
      → ((g : Registry) → r ≡ some g → IsSound (record s { reg = g }) × IsOnline g c)
      → IsSound (admit s c r)
  unfolding admit
  admit-IsSound s c none v h = record { inv = v.inv; counted = v.counted }
  admit-IsSound s c (some g) v h = start-IsSound (record s { reg = g }) c (h g refl).0 (h g refl).1

  -- So does a new connection, while the sequence number does not wrap around.
  pub handle_conn-IsSound :
      (s : Server) → IsSound s → s.next_id + 1 < 2 ^ 64 → IsSound (handle_conn s)
  unfolding handle_conn new_client alloc_client
  handle_conn-IsSound s v small = admit-IsSound _ s.next_client _ waiting λ g h.
      let (on, next) = add_client-IsOnline s.reg fresh g v.inv numbered refl h in
      (
        record {
          inv = add_client-Inv s.reg fresh g v.inv numbered refl h;
          counted = ground (arith, v.counted, next);
        },
        on,
      )
    where
      seq : ℕ
      seq = (s.next_id + 1) % 2 ^ 64

      fresh : Client
      fresh = new_client (client_id seq) (guest_name seq)

      numbered : fresh.id ≡ client_id (suc s.next_client)
      numbered = ap client_id (omega (arith, v.counted))

      waiting : IsSound (record s {
        reg = alloc_client s.reg fresh;
        next_id = seq;
        link_at = update s.link_at s.next_client new_link;
      })
      waiting = record {
        inv = alloc_client-Inv s.reg fresh v.inv numbered;
        counted = omega (arith, v.counted);
      }
