-- ===== src/Ws/Conn/Keeps.antt =====
-- A property of the hub that the operations of internal/ws/conn.go on it keep is kept by every event.
use livechat_server.Base.{
  ℕ, Bool, true, false, List, Text, Option, none, some, arith, update, Option-cases, inl, inr,
  codes,
}
use livechat_server.Strings.{Unicode, trim_space}
use livechat_server.Ws.Messages.{Uuid, ClientEvent, Event}
use livechat_server.Ws.Hub.{
  Hub, OutboundMessage, enqueue, broadcast_room, broadcast_user, subscribe_room, unsubscribe_room,
}
use livechat_server.Ws.Conn.{
  World, Store, Message, user_of, join_room, leave_room, add_room, drop_room, send_if_member,
  typing_event, announce_in_room, announce_to_both, post_in_room, send_room_message,
  send_dm_message, handle_message, handle_typing, handle_read, handle_client_event,
}

-- What a handler does to the hub: it queues messages, sends an event to its connection, and takes the
-- connection into a room and out of it.
pub record IsKept (P : Hub → Type 0) (c : ℕ) : Type 0 where
  pub queues : (q : List OutboundMessage) (h : Hub) → P h → P (record h { queue = q })
  pub sends :
      (event : Event) (h : Hub)
      → P h
      → P (record h { conn_at = update h.conn_at c (enqueue event (h.conn_at c)) })
  pub joins :
      (room : Uuid) (event : Event) (h : Hub)
      → P h
      → P (record (subscribe_room room c h) {
        conn_at = update h.conn_at c (enqueue event (add_room room (h.conn_at c)));
      })
  pub leaves :
      (room : Uuid) (h : Hub)
      → P h
      → P (
          unsubscribe_room room c
            (record h { conn_at = update h.conn_at c (drop_room room (h.conn_at c)) }))

module _ (P : Hub → Type 0) (c : ℕ) (kept : IsKept P c) {Db : Type 0} (store : Store Db)
    (parse : Text → Option Uuid) where
  join_room_keeps : (room : Text) (w : World Db) → P w.hub → P (join_room store parse room c w).hub
  unfolding join_room subscribe_room
  join_room_keeps room w s = elim (Option-cases (parse room)) [
    | inl e ↦ rw (e, join_room) (kept.sends (Event.error (codes "invalid room")) w.hub s)
    | inr (r, e) ↦
        rw (e, join_room)
          (kept.joins r (Event.room_joined (record { room_id = r; user_id = (user_of c w).id }))
            w.hub s)
  ]

  leave_room_keeps :
      (room : Text) (w : World Db) → P w.hub → P (leave_room store parse room c w).hub
  unfolding leave_room
  leave_room_keeps room w s = elim (Option-cases (parse room)) [
    | inl e ↦ rw (e, leave_room) s
    | inr (r, e) ↦ rw (e, leave_room) (kept.leaves r w.hub s)
  ]

  announce_in_room_keeps :
      (room : Uuid) (o : Db × Option Message) (w : World Db)
      → P w.hub
      → P (announce_in_room store parse room c o w).hub
  unfolding announce_in_room broadcast_room
  announce_in_room_keeps room (db, none) w s = s
  announce_in_room_keeps room (db, some m) w s = kept.queues _ w.hub s

  announce_to_both_keeps :
      (user : Uuid) (o : Db × Option Message) (w : World Db)
      → P w.hub
      → P (announce_to_both store parse user c o w).hub
  unfolding announce_to_both broadcast_user
  announce_to_both_keeps user (db, none) w s = s
  announce_to_both_keeps user (db, some m) w s = kept.queues _ w.hub s

  send_if_member_keeps :
      (o : Option Bool) (room : Uuid) (msg : ClientEvent) (body : Text) (w : World Db)
      → P w.hub
      → P (send_if_member store parse o room msg body c w).hub
  unfolding send_if_member post_in_room
  send_if_member_keeps (some true) room msg body w s = announce_in_room_keeps room _ w s
  send_if_member_keeps (some false) room msg body w s =
      kept.sends (Event.error (codes "not a member")) w.hub s
  send_if_member_keeps none room msg body w s =
      kept.sends (Event.error (codes "not a member")) w.hub s

  send_room_message_keeps :
      (msg : ClientEvent) (body : Text) (w : World Db)
      → P w.hub
      → P (send_room_message store parse msg body c w).hub
  unfolding send_room_message
  send_room_message_keeps msg body w s = elim (Option-cases (parse msg.room_id)) [
    | inl e ↦ rw (e, send_room_message) s
    | inr (r, e) ↦ rw (e, send_room_message) (send_if_member_keeps _ r msg body w s)
  ]

  send_dm_message_keeps :
      (msg : ClientEvent) (body : Text) (w : World Db)
      → P w.hub
      → P (send_dm_message store parse msg body c w).hub
  unfolding send_dm_message
  send_dm_message_keeps msg body w s = elim (Option-cases (parse msg.recipient_id)) [
    | inl e ↦ rw (e, send_dm_message) s
    | inr (r, e) ↦ rw (e, send_dm_message) (announce_to_both_keeps r _ w s)
  ]

  handle_message_keeps :
      ⦃u : Unicode⦄
      → (msg : ClientEvent) (w : World Db) → P w.hub
      → P (handle_message store parse msg c w).hub
  unfolding handle_message
  handle_message_keeps msg w s = ground (
    arith,
    send_room_message_keeps msg (trim_space msg.body) w s,
    send_dm_message_keeps msg (trim_space msg.body) w s,
  )

  handle_typing_keeps :
      (msg : ClientEvent) (w : World Db) → P w.hub → P (handle_typing store parse msg c w).hub
  unfolding handle_typing broadcast_room broadcast_user
  handle_typing_keeps msg w s = elim (Option-cases (parse msg.room_id)) [
    | inr (r, e) ↦ elim (Option-cases (parse msg.recipient_id)) [
      | inr (k, f) ↦ ground (arith, typing_in r, typing_to k)
      | inl f ↦ ground (arith, typing_in r)
    ]
    | inl e ↦ elim (Option-cases (parse msg.recipient_id)) [
      | inr (k, f) ↦ ground (arith, typing_to k)
      | inl f ↦ ground arith
    ]
  ]
    where
      typing_in :
          (r : Uuid)
          → P (broadcast_room r (typing_event msg (some r) none (user_of c w).id) (some c) w.hub)
      typing_in r = kept.queues _ w.hub s

      typing_to :
          (k : Uuid)
          → P (broadcast_user k (typing_event msg none (some k) (user_of c w).id) (some c) w.hub)
      typing_to k = kept.queues _ w.hub s

  handle_read_keeps :
      (now : ℕ) (msg : ClientEvent) (w : World Db)
      → P w.hub
      → P (handle_read store parse now msg c w).hub
  unfolding handle_read
  handle_read_keeps now msg w s = elim (Option-cases (parse msg.room_id)) [
    | inl e ↦ ground arith
    | inr (r, e) ↦ ground arith
  ]

  pub handle_client_event_keeps :
      ⦃u : Unicode⦄
      → (now : ℕ) (msg : ClientEvent) (w : World Db) → P w.hub
      → P (handle_client_event store parse now msg c w).hub
  unfolding handle_client_event
  handle_client_event_keeps now msg w s = ground (
    arith,
    join_room_keeps msg.room_id w s,
    leave_room_keeps msg.room_id w s,
    handle_message_keeps msg w s,
    handle_typing_keeps msg w s,
    handle_read_keeps now msg w s,
  )
