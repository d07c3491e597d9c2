-- ===== src/Ws/Hub/Delivery.antt =====
-- Who gets what the hub of internal/ws/hub.go sends.
use livechat_server.Base.{
  ℕ, ◌≡◌, refl, ◌∙◌, Bool, false, ◌&&◌, List, [], ◌∷◌, none, some, arith, Heap, update, contains,
  Distinct, ==_iff, if◌then◌else◌, keep_if, contains-keep_if, keep_if-Distinct, Option-cases, inl,
  inr,
}
use livechat_server.Ws.Messages.{Event}
use livechat_server.Ws.Sets.{set_of, in_set}
use livechat_server.Ws.Hub.{
  Hub, Conn, OutboundMessage, enqueue, enqueue_each, send, targets, not_excluded,
}
use livechat_server.Ws.Hub.Sound.{IsSound}

-- Each of distinct connections is sent the event once, and no other one.
pub enqueue_each-at :
    (g : Heap Conn) (l : List ℕ) (event : Event) (b : ℕ)
    → Distinct l
    → enqueue_each g l event b ≡ (if contains b l then enqueue event (g b) else g b)
unfolding enqueue_each contains
enqueue_each-at g [] event b d = refl
enqueue_each-at g (x ∷ l) event b d =
    enqueue_each-at (update g x (enqueue event (g x))) l event b d.1 ∙ one_more
  where
    one_more :
        (if contains b l
          then enqueue event (update g x (enqueue event (g x)) b)
          else update g x (enqueue event (g x)) b)
        ≡ (if contains b (x ∷ l) then enqueue event (g b) else g b)
    one_more = unfold update contains in ground (arith, ==_iff b x, ==_iff x b, d.0)

-- Whether a message is for a connection: the message's room or, where it has none, its user has the
-- connection, which is not the excluded one.
abbrev pub is_for : OutboundMessage → ℕ → Hub → Bool
is_for msg b h =
    elim msg.room_id [
      | some room ↦ in_set room b h.rooms
      | none ↦ elim msg.user_id [ some user ↦ in_set user b h.users | none ↦ false ]
    ]
    && not_excluded msg.exclude b

contains-targets :
    (msg : OutboundMessage) (b : ℕ) (h : Hub)
    → contains b (keep_if (not_excluded msg.exclude) (targets msg h)) ≡ is_for msg b h
unfolding in_set targets contains
contains-targets msg b h = elim (Option-cases msg.room_id) [
  | inr (r, e) ↦ ground (arith, contains-keep_if (not_excluded msg.exclude) b (set_of r h.rooms))
  | inl e ↦ elim (Option-cases msg.user_id) [
    | inr (k, f) ↦ ground (arith, contains-keep_if (not_excluded msg.exclude) b (set_of k h.users))
    | inl f ↦ ground (arith, contains-keep_if (not_excluded msg.exclude) b [])
  ]
]

targets-Distinct : (msg : OutboundMessage) (h : Hub) → IsSound h → Distinct (targets msg h)
unfolding targets
targets-Distinct msg h s = elim (Option-cases msg.room_id) [
  | inr (r, e) ↦ ground (arith, s.rooms_tidy.distinct r)
  | inl e ↦ elim (Option-cases msg.user_id) [
    | inr (k, f) ↦ ground (arith, s.users_tidy.distinct k)
    | inl f ↦ ground arith
  ]
]

-- Of a sound hub, `send` sends the event once to each connection that the message is for, and
-- changes no other.
pub send_delivers :
    (msg : OutboundMessage) (h : Hub) (b : ℕ)
    → IsSound h
    → (send msg h).conn_at b
      ≡ (if is_for msg b h then enqueue msg.event (h.conn_at b) else h.conn_at b)
unfolding send
send_delivers msg h b s = rw (contains-targets msg b h) at (
    enqueue_each-at h.conn_at (keep_if (not_excluded msg.exclude) (targets msg h)) msg.event b
      (keep_if-Distinct (not_excluded msg.exclude) (targets msg h) (targets-Distinct msg h s)))
