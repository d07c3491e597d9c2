-- ===== src/System/Sockets.antt =====
-- What every statement of internal/store keeps is kept by every round of the loops of internal/ws.
use livechat_server.Base.{
  ℕ, Bool, true, false, Text, Option, none, some, arith, Option-cases, Bool-cases, inl, inr, codes,
  is_nil,
}
use livechat_server.Strings.{Unicode, trim_space}
use livechat_server.Store.Models.{Uuid, Message}
use livechat_server.Store.Queries.{Call}
use livechat_server.Store.Rows.{Tables}
use livechat_server.Store.Histories.{Change, apply}
use livechat_server.Ws.Messages.{ClientEvent}
use livechat_server.Ws.Conn.{
  World, user_of, join_room, leave_room, send_if_member, announce_in_room, announce_to_both,
  post_in_room, send_room_message, send_dm_message, handle_message, handle_typing, handle_read,
  handle_client_event,
}
use livechat_server.Ws.Histories.{Round, step}
use livechat_server.Ws.Database.{Database, store_over}
use livechat_server.System.Keeps.{IsLasting}

module _ (Q : Tables → Type 0) (lasting : IsLasting Q) (calls reads : ℕ → Call)
    (parse : Text → Option Uuid) where
  join_room_keeps :
      (room : Text) (c : ℕ) (w : World Database)
      → Q w.db.tables
      → Q (join_room (store_over calls reads) parse room c w).db.tables
  unfolding join_room apply
  join_room_keeps room c w q = elim (Option-cases (parse room)) [
    | inl e ↦ rw (e, join_room) q
    | inr (r, e) ↦
        rw (e, join_room)
          (lasting (calls w.db.made) (Change.new_member r (user_of c w).id (codes "member"))
            w.db.tables q)
  ]

  leave_room_keeps :
      (room : Text) (c : ℕ) (w : World Database)
      → Q w.db.tables
      → Q (leave_room (store_over calls reads) parse room c w).db.tables
  unfolding leave_room apply
  leave_room_keeps room c w q = elim (Option-cases (parse room)) [
    | inl e ↦ rw (e, leave_room) q
    | inr (r, e) ↦
        rw (e, leave_room)
          (lasting (calls w.db.made) (Change.no_member r (user_of c w).id) w.db.tables q)
  ]

  announce_in_room_keeps :
      (room : Uuid) (c : ℕ) (o : Database × Option Message) (w : World Database)
      → Q o.0.tables
      → Q (announce_in_room (store_over calls reads) parse room c o w).db.tables
  unfolding announce_in_room
  announce_in_room_keeps room c (db, none) w q = q
  announce_in_room_keeps room c (db, some m) w q = q

  announce_to_both_keeps :
      (recipient : Uuid) (c : ℕ) (o : Database × Option Message) (w : World Database)
      → Q o.0.tables
      → Q (announce_to_both (store_over calls reads) parse recipient c o w).db.tables
  unfolding announce_to_both
  announce_to_both_keeps recipient c (db, none) w q = q
  announce_to_both_keeps recipient c (db, some m) w q = q

  post_in_room_keeps :
      (room : Uuid) (msg : ClientEvent) (body : Text) (c : ℕ) (w : World Database)
      → Q w.db.tables
      → Q (post_in_room (store_over calls reads) parse room msg body c w).db.tables
  unfolding post_in_room apply
  post_in_room_keeps room msg body c w q = announce_in_room_keeps room c _ w (
      lasting (calls w.db.made)
        (Change.new_message (some room) (user_of c w).id none body msg.attachment_url
          (codes "text"))
        w.db.tables q)

  send_if_member_keeps :
      (o : Option Bool) (room : Uuid) (msg : ClientEvent) (body : Text) (c : ℕ) (w : World Database)
      → Q w.db.tables
      → Q (send_if_member (store_over calls reads) parse o room msg body c w).db.tables
  unfolding send_if_member
  send_if_member_keeps none room msg body c w q = q
  send_if_member_keeps (some true) room msg body c w q = post_in_room_keeps room msg body c w q
  send_if_member_keeps (some false) room msg body c w q = q

  send_room_message_keeps :
      (msg : ClientEvent) (body : Text) (c : ℕ) (w : World Database)
      → Q w.db.tables
      → Q (send_room_message (store_over calls reads) parse msg body c w).db.tables
  unfolding send_room_message
  send_room_message_keeps msg body c w q = elim (Option-cases (parse msg.room_id)) [
    | inl e ↦ rw (e, send_room_message) q
    | inr (r, e) ↦ rw (e, send_room_message) (send_if_member_keeps _ r msg body c w q)
  ]

  send_dm_message_keeps :
      (msg : ClientEvent) (body : Text) (c : ℕ) (w : World Database)
      → Q w.db.tables
      → Q (send_dm_message (store_over calls reads) parse msg body c w).db.tables
  unfolding send_dm_message apply
  send_dm_message_keeps msg body c w q = elim (Option-cases (parse msg.recipient_id)) [
    | inl e ↦ rw (e, send_dm_message) q
    | inr (r, e) ↦
        rw (e, send_dm_message)
          (announce_to_both_keeps r c _ w (
            lasting (calls w.db.made)
              (Change.new_message none (user_of c w).id (some r) body msg.attachment_url
                (codes "text"))
              w.db.tables q))
  ]

  handle_typing_keeps :
      (msg : ClientEvent) (c : ℕ) (w : World Database)
      → Q w.db.tables
      → Q (handle_typing (store_over calls reads) parse msg c w).db.tables
  unfolding handle_typing
  handle_typing_keeps msg c w q = elim (Option-cases (parse msg.room_id)) [
    | inr (r, e) ↦ elim (Option-cases (parse msg.recipient_id)) [
      | inr (k, f) ↦ ground arith
      | inl f ↦ ground arith
    ]
    | inl e ↦ elim (Option-cases (parse msg.recipient_id)) [
      | inr (k, f) ↦ ground arith
      | inl f ↦ ground arith
    ]
  ]

  handle_read_keeps :
      (now : ℕ) (msg : ClientEvent) (c : ℕ) (w : World Database)
      → Q w.db.tables
      → Q (handle_read (store_over calls reads) parse now msg c w).db.tables
  unfolding handle_read apply
  handle_read_keeps now msg c w q = elim (Bool-cases (is_nil msg.room_id)) [
    | inl f ↦ rw (f, handle_read) q
    | inr f ↦ elim (Option-cases (parse msg.room_id)) [
      | inl e ↦ rw (f, e, handle_read) q
      | inr (r, e) ↦
          rw (f, e, handle_read)
            (lasting (calls w.db.made) (Change.read_at r (user_of c w).id now) w.db.tables q)
    ]
  ]

  module _ ⦃u : Unicode⦄ where
    handle_message_keeps :
        (msg : ClientEvent) (c : ℕ) (w : World Database)
        → Q w.db.tables
        → Q (handle_message (store_over calls reads) parse msg c w).db.tables
    unfolding handle_message
    handle_message_keeps msg c w q = ground (
      arith,
      send_room_message_keeps msg (trim_space msg.body) c w q,
      send_dm_message_keeps msg (trim_space msg.body) c w q,
    )

    pub step_keeps :
        (now : ℕ) (r : Round) (w : World Database)
        → Q w.db.tables
        → Q (step (store_over calls reads) parse now r w).db.tables
    unfolding step handle_client_event
    step_keeps now (Round.hub e) w q = q
    step_keeps now (Round.read msg c) w q = ground (
      arith,
      join_room_keeps msg.room_id c w q,
      leave_room_keeps msg.room_id c w q,
      handle_message_keeps msg c w q,
      handle_typing_keeps msg c w q,
      handle_read_keeps now msg c w q,
    )
    step_keeps now (Round.write c) w q = q
