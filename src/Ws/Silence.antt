-- ===== src/Ws/Silence.antt =====
-- What comes to a connection of internal/ws after the hub has dropped it.
use mathlib.Core.List.{append_assoc}
use livechat_server.Base.{
  Bool-cases, ℕ, Heap, ◌∙◌, ◌≡◌, refl, Bool, true, false, not, List, [], ◌∷◌, ◌++◌, Text, Option,
  All, arith, update, ==_iff, ◌==◌, Option-cases, inl, inr,
}
use livechat_server.Strings.{Unicode}
use livechat_server.Ws.Messages.{Uuid, Event}
use livechat_server.Ws.Sets.{in_set, in_set-add_under}
use livechat_server.Ws.Sets.Tidy.{in_set-remove_under}
use livechat_server.Ws.Hub.{
  Hub, Conn, Selected, OutboundMessage, write_conn, add_conn, remove_conn, broadcast_presence,
  run_step, send, deliver_first, subscribe_room, unsubscribe_room,
}
use livechat_server.Ws.Hub.Sound.{IsSound, remove_conn_everywhere}
use livechat_server.Ws.Hub.Delivery.{is_for, send_delivers}
use livechat_server.Ws.Hub.Presence.{add_conn_announces, remove_conn_announces}
use livechat_server.Ws.Conn.{World, Store}
use livechat_server.Ws.Conn.Keeps.{IsKept, handle_client_event_keeps}
use livechat_server.Ws.Histories.{Round, step, run, step-IsSound}

-- All that was ever put into the channel `send` of a connection and not dropped.
abbrev pub received : Conn → List Event
received x = x.written ++ x.send

-- What a connection had received it still has, and if nothing waited nothing waits.
abbrev IsAsBefore : Conn → Conn → Type 0
IsAsBefore before x = (received x ≡ received before) × (before.send ≡ [] → x.send ≡ [])

written_first :
    (x : Conn) (l : List Event)
    → x.send ≡ l
    → (received (write_conn x) ≡ received x) × (x.send ≡ [] → (write_conn x).send ≡ [])
unfolding write_conn
written_first x [] e = ground arith
written_first x (m ∷ rest) e = ground (arith, append_assoc x.written (m ∷ []) rest)

write_conn-IsAsBefore : (before x : Conn) → IsAsBefore before x → IsAsBefore before (write_conn x)
write_conn-IsAsBefore before x (same, drained) =
    let (as_sent, as_drained) = written_first x x.send refl in
    (as_sent ∙ same, λ h. as_drained (drained h))

-- A round that neither registers the connection nor is one of its readLoop.
unfoldable pub is_quiet : ℕ → ℕ × Round → Bool
is_quiet c (now, Round.hub (Selected.from_register b)) = not (c == b)
is_quiet c (now, Round.hub (Selected.from_unregister b)) = true
is_quiet c (now, Round.hub Selected.from_broadcast) = true
is_quiet c (now, Round.read msg b) = not (c == b)
is_quiet c (now, Round.write b) = true

moved : (before x y : Conn) → y ≡ x → IsAsBefore before x → IsAsBefore before y
moved before x y e s = rw e s

written_here :
    (g : Heap Conn) (b c : ℕ) → (c == b) ≡ true → update g b (write_conn (g b)) c ≡ write_conn (g c)
unfolding update
written_here g b c e = ground (arith, ==_iff b c, ==_iff c b)

elsewhere : (g : Heap Conn) (b c : ℕ) (x : Conn) → (c == b) ≡ false → update g b x c ≡ g c
unfolding update
elsewhere g b c x e = ground (arith, ==_iff b c, ==_iff c b)

module _ (c : ℕ) (before : Conn) where
  -- The connection is in no set, and has what it had.
  record IsLeftAlone (h : Hub) : Type 0 where
    no_user : (k : Uuid) → in_set k c h.users ≡ false
    no_room : (k : Uuid) → in_set k c h.rooms ≡ false
    same : IsAsBefore before (h.conn_at c)

  IsLeftAlone-IsKept : (b : ℕ) → (c == b) ≡ false → IsKept IsLeftAlone b
  unfolding subscribe_room unsubscribe_room
  IsLeftAlone-IsKept b e = record {
    queues = λ q h s. record { no_user = s.no_user; no_room = s.no_room; same = s.same };
    sends = λ event h s. record {
      no_user = s.no_user;
      no_room = s.no_room;
      same = rw (elsewhere h.conn_at b c _ e) s.same;
    };
    joins = λ room event h s. record {
      no_user = s.no_user;
      no_room = λ k. ground (arith, s.no_room k, in_set-add_under room k b c h.rooms);
      same = rw (elsewhere h.conn_at b c _ e) s.same;
    };
    leaves = λ room h s. record {
      no_user = s.no_user;
      no_room = λ k. ground (arith, s.no_room k, in_set-remove_under room k b c h.rooms);
      same = rw (elsewhere h.conn_at b c _ e) s.same;
    };
  }

  add_conn-IsLeftAlone :
      (now b : ℕ) (h : Hub)
      → IsSound h
      → (c == b) ≡ false
      → IsLeftAlone h
      → IsLeftAlone (add_conn now b h)
  add_conn-IsLeftAlone now b h s e l = record {
    no_user = λ k.
        unfold add_conn broadcast_presence in
        ground (arith, l.no_user k, in_set-add_under (h.conn_at b).user.id k b c h.users);
    no_room = unfold add_conn broadcast_presence in l.no_room;
    same =
        moved before (h.conn_at c) ((add_conn now b h).conn_at c)
          (ground (arith, add_conn_announces now b c h s, l.no_user (h.conn_at c).user.id)) l.same;
  }

  remove_conn-IsLeftAlone :
      (now b : ℕ) (h : Hub) → IsSound h → IsLeftAlone h → IsLeftAlone (remove_conn now b h)
  remove_conn-IsLeftAlone now b h s l = record {
    no_user = λ k. ground (arith, l.no_user k, remove_conn_everywhere now b h k c s);
    no_room = λ k. ground (arith, l.no_room k, remove_conn_everywhere now b h k c s);
    same =
        moved before (h.conn_at c) ((remove_conn now b h).conn_at c)
          (ground (arith, remove_conn_announces now b c h s, l.no_user (h.conn_at c).user.id))
          l.same;
  }

  is_for-IsLeftAlone : (msg : OutboundMessage) (h : Hub) → IsLeftAlone h → is_for msg c h ≡ false
  is_for-IsLeftAlone msg h l = elim (Option-cases msg.room_id) [
    | inr (r, e) ↦ ground (arith, l.no_room r)
    | inl e ↦ elim (Option-cases msg.user_id) [
      | inr (k, f) ↦ ground (arith, l.no_user k)
      | inl f ↦ ground arith
    ]
  ]

  sent :
      (msg : OutboundMessage) (rest : List OutboundMessage) (h : Hub)
      → IsSound h
      → IsLeftAlone h
      → (send msg (record h { queue = rest })).conn_at c ≡ h.conn_at c
  sent msg rest h s l = ground (
    arith,
    send_delivers msg (record h { queue = rest }) c
        (record { users_tidy = s.users_tidy; rooms_tidy = s.rooms_tidy; own_user = s.own_user }),
    is_for-IsLeftAlone msg h l,
  )

  deliver-IsLeftAlone :
      (q : List OutboundMessage) (h : Hub)
      → IsSound h
      → IsLeftAlone h
      → IsLeftAlone (deliver_first q h)
  unfolding deliver_first
  deliver-IsLeftAlone [] h s l = l
  deliver-IsLeftAlone (msg ∷ rest) h s l = record {
    no_user = unfold send in l.no_user;
    no_room = unfold send in l.no_room;
    same = rw (sent msg rest h s l) l.same;
  }

  run_step-IsLeftAlone :
      (now : ℕ) (e : Selected) (h : Hub)
      → is_quiet c (now, Round.hub e) ≡ true
      → IsSound h
      → IsLeftAlone h
      → IsLeftAlone (run_step now e h)
  unfolding run_step is_quiet
  run_step-IsLeftAlone now (Selected.from_register b) h q s l =
      add_conn-IsLeftAlone now b h s (ground arith) l
  run_step-IsLeftAlone now (Selected.from_unregister b) h q s l =
      remove_conn-IsLeftAlone now b h s l
  run_step-IsLeftAlone now Selected.from_broadcast h q s l = deliver-IsLeftAlone h.queue h s l

  module _ ⦃u : Unicode⦄ {Db : Type 0} (store : Store Db) (parse : Text → Option Uuid) where
    step-IsLeftAlone :
        (now : ℕ) (r : Round) (w : World Db)
        → is_quiet c (now, r) ≡ true
        → IsSound w.hub
        → IsLeftAlone w.hub
        → IsLeftAlone (step store parse now r w).hub
    unfolding step is_quiet update
    step-IsLeftAlone now (Round.hub e) w q s l = run_step-IsLeftAlone now e w.hub q s l
    step-IsLeftAlone now (Round.read msg b) w q s l =
        handle_client_event_keeps IsLeftAlone b (IsLeftAlone-IsKept b (ground arith)) store parse
          now msg w l
    step-IsLeftAlone now (Round.write b) w q s l = record {
      no_user = l.no_user;
      no_room = l.no_room;
      same = elim (Bool-cases (c == b)) [
        | inl e ↦
            rw (written_here w.hub.conn_at b c e)
              (write_conn-IsAsBefore before (w.hub.conn_at c) l.same)
        | inr e ↦ rw (elsewhere w.hub.conn_at b c _ e) l.same
      ];
    }

    run-IsLeftAlone :
        (rounds : List (ℕ × Round)) (w : World Db)
        → All (λ r. is_quiet c r ≡ true) rounds
        → IsSound w.hub
        → IsLeftAlone w.hub
        → IsLeftAlone (run store parse rounds w).hub
    unfolding run
    run-IsLeftAlone [] w q s l = l
    run-IsLeftAlone ((now, r) ∷ rounds) w q s l =
        run-IsLeftAlone rounds (step store parse now r w) q.1 (step-IsSound store parse now r w s)
          (step-IsLeftAlone now r w q.0 s l)

removed-IsLeftAlone :
    (now c : ℕ) (h : Hub) → IsSound h → IsLeftAlone c (h.conn_at c) (remove_conn now c h)
removed-IsLeftAlone now c h s = record {
  no_user = λ k. ground (arith, ==_iff c c, remove_conn_everywhere now c h k c s);
  no_room = λ k. ground (arith, ==_iff c c, remove_conn_everywhere now c h k c s);
  same =
      moved (h.conn_at c) (h.conn_at c) ((remove_conn now c h).conn_at c)
        (ground (arith, ==_iff c c, remove_conn_announces now c c h s)) (refl, λ e. e);
}

-- From a sound hub, once Run has taken a connection from `unregister`: as long as it is not
-- registered again and its readLoop has ended, in whatever order the loops run, nothing is put into
-- its channel `send` any more; and if nothing waited there, nothing ever waits.
pub removed_silent :
    ⦃u : Unicode⦄
    → {Db : Type 0} (store : Store Db) (parse : Text → Option Uuid) (now c : ℕ)
      (rounds : List (ℕ × Round)) (w : World Db)
    → IsSound w.hub
    → All (λ r. is_quiet c r ≡ true) rounds
    → (received (
          (run store parse ((now, Round.hub (Selected.from_unregister c)) ∷ rounds) w).hub.conn_at
            c)
        ≡ received (w.hub.conn_at c))
      × ((w.hub.conn_at c).send ≡ []
          → ((run store parse
                ((now, Round.hub (Selected.from_unregister c)) ∷ rounds)
                w).hub.conn_at
              c).send
            ≡ [])
unfolding run step run_step
removed_silent store parse now c rounds w s q =
    (run-IsLeftAlone c (w.hub.conn_at c) store parse rounds _ q
      (step-IsSound store parse now (Round.hub (Selected.from_unregister c)) w s)
      (removed-IsLeftAlone now c w.hub s)).same
