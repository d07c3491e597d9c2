-- ===== src/Chat/Server/Delivery.antt =====
-- Who receives what is sent to a room.
use livechat_server.Base.{
  ℕ, ◌≡◌, refl, ◌∙◌, Bool, false, ◌&&◌, List, [], ◌∷◌, Text, Option, none, some, arith, lookup,
  update, Heap, contains, Distinct, values, values-Distinct, contains-values, key_of_value,
  contains-keep_if, keep_if-Distinct, if◌then◌else◌, ◌==◌, ℤ, ==_iff, Bool-cases, inl, inr,
}
use livechat_server.Strings.{Unicode}
use livechat_server.Chat.Room.{members_snapshot, not_excluded}
use livechat_server.Chat.Client.{Link, send_link}
use livechat_server.Chat.Registry.{Registry}
use livechat_server.Chat.Registry.Invariant.{Inv, members_under}
use livechat_server.Chat.Server.{Server, send_each, broadcast_room, room_line}
use livechat_server.Chat.Server.Sound.{IsSound}

-- Each of distinct receivers gets the message once, and nobody else's link changes.
send_each-lookup :
    (capacity : ℤ) (h : Heap Link) (l : List ℕ) (message : Text) (b : ℕ)
    → Distinct l
    → send_each capacity h l message b
      ≡ (if contains b l then send_link capacity (h b) message else h b)
unfolding send_each contains
send_each-lookup capacity h [] message b d = refl
send_each-lookup capacity h (x ∷ l) message b d =
    send_each-lookup capacity (update h x (send_link capacity (h x) message)) l message b d.1
    ∙ one_more
  where
    one_more :
        (if contains b l
          then send_link capacity (update h x (send_link capacity (h x) message) b) message
          else update h x (send_link capacity (h x) message) b)
        ≡ (if contains b (x ∷ l) then send_link capacity (h b) message else h b)
    one_more = unfold update contains in ground (arith, ==_iff b x, d.0)

-- Whether the client at an address is a member of the room at another.
abbrev pub is_member : Registry → ℕ → ℕ → Bool
is_member g room b = elim (lookup (g.client_at b).id (g.room_at room).members) [
  | none ↦ false
  | some a ↦ a == b
]

module _ ⦃u : Unicode⦄ (g : Registry) (v : Inv g) (k : Text) (room : ℕ)
    (here : lookup k g.rooms ≡ some room) where
  members_here : members_under k g ≡ (g.room_at room).members
  members_here = ground arith

  held : (i : Text) (a : ℕ) → lookup i (g.room_at room).members ≡ some a → i ≡ (g.client_at a).id
  held i a h = v.member_id k i a (rw members_here h)

  is_member-contains : (b : ℕ) → contains b (values (g.room_at room).members) ≡ is_member g room b
  is_member-contains b = elim (Bool-cases (contains b (values (g.room_at room).members))) [
    | inl e ↦
        let unique = rw members_here at (v.members_unique k) in
        let (j, f) = key_of_value b (g.room_at room).members unique e in
        ground (arith, held j b f, ==_iff b b)
    | inr e ↦
        ground (arith, ==_iff b b, contains-values b (g.client_at b).id (g.room_at room).members)
  ]

  members-Distinct : Distinct (values (g.room_at room).members)
  members-Distinct =
      values-Distinct (λ a. (g.client_at a).id) (g.room_at room).members
        (rw members_here at (v.members_unique k)) held

-- Of a room that the server keeps, each member but the excluded one is sent the message once, as
-- `[room] text`; no other client is sent anything, and a stored message goes into the history.
pub broadcast_delivers :
    ⦃u : Unicode⦄
    → (s : Server) (k : Text) (room : ℕ) (text : Text) (store : Bool) (exclude : Option ℕ) (b : ℕ)
    → IsSound s
    → lookup k s.rooms ≡ some room
    → (broadcast_room s room text store exclude).link_at b ≡ (
        if is_member s.reg room b && not_excluded exclude b
        then send_link s.cfg.send_buffer_size (s.link_at b) (room_line (s.room_at room).name text)
        else s.link_at b)
unfolding broadcast_room members_snapshot
broadcast_delivers s k room text store exclude b v here =
    send_each-lookup s.cfg.send_buffer_size s.link_at _ _ b
      (keep_if-Distinct (not_excluded exclude) _ (members-Distinct s.reg v.inv k room here))
    ∙ rw (
      contains-keep_if (not_excluded exclude) b (values (s.room_at room).members),
      is_member-contains s.reg v.inv k room here b,
    )
