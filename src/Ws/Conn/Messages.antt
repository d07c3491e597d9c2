-- ===== src/Ws/Conn/Messages.antt =====
-- What becomes of a "message" event of internal/ws/conn.go.
use livechat_server.Base.{
  ℕ, ◌≡◌, ◌≢◌, refl, ap, ◌∙◌, Bool, true, false, ◌&&◌, [], Text, Option, none, some, arith,
  if◌then◌else◌, text_eq, codes, is_nil,
}
use livechat_server.Strings.{Unicode, trim_space}
use livechat_server.Ws.Messages.{Uuid, ClientEvent, Event}
use livechat_server.Ws.Sets.{in_set}
use livechat_server.Ws.Hub.{OutboundMessage, Selected, run_step, enqueue, send, broadcast_room}
use livechat_server.Ws.Hub.Sound.{IsSound}
use livechat_server.Ws.Hub.Delivery.{send_delivers}
use livechat_server.Ws.Conn.Sound.{queued-IsSound}
use livechat_server.Ws.Conn.{
  World, Store, Message, user_of, announce_in_room, send_if_member, post_in_room, send_room_message,
  handle_message, handle_client_event, payload_of,
}

module _ ⦃u : Unicode⦄ {Db : Type 0} (store : Store Db) (parse : Text → Option Uuid) where
  -- A message event with something in it, for a room.
  message_in_room :
      (now : ℕ) (msg : ClientEvent) (c : ℕ) (w : World Db) (room : Uuid)
      → msg.event_type ≡ codes "message"
      → (is_nil (trim_space msg.body) && is_nil msg.attachment_url) ≡ false
      → is_nil msg.room_id ≡ false
      → parse msg.room_id ≡ some room
      → handle_client_event store parse now msg c w
        ≡ send_if_member store parse
            (store.is_room_member room (user_of c w).id w.db)
            room
            msg
            (trim_space msg.body)
            c
            w
  unfolding handle_client_event handle_message send_room_message text_eq
  message_in_room now msg c w room t body r p = rw t (ground arith)

  silent :
      (o : Option Bool) (room : Uuid) (msg : ClientEvent) (body : Text) (c : ℕ) (w : World Db)
      → o ≢ some true
      → ((send_if_member store parse o room msg body c w).db ≡ w.db)
        × ((send_if_member store parse o room msg body c w).hub.queue ≡ w.hub.queue)
  unfolding send_if_member
  silent (some true) room msg body c w n = absurd (n refl)
  silent (some false) room msg body c w n = (refl, refl)
  silent none room msg body c w n = (refl, refl)

  -- A message event with something in it, for a room of which the store does not say that the sender
  -- is a member, is neither stored nor queued for anyone.
  pub nonmember_silent :
      (now : ℕ) (msg : ClientEvent) (c : ℕ) (w : World Db) (room : Uuid)
      → msg.event_type ≡ codes "message"
      → (is_nil (trim_space msg.body) && is_nil msg.attachment_url) ≡ false
      → is_nil msg.room_id ≡ false
      → parse msg.room_id ≡ some room
      → store.is_room_member room (user_of c w).id w.db ≢ some true
      → ((handle_client_event store parse now msg c w).db ≡ w.db)
        × ((handle_client_event store parse now msg c w).hub.queue ≡ w.hub.queue)
  nonmember_silent now msg c w room t body r p n =
      rw (message_in_room now msg c w room t body r p) (
        silent (store.is_room_member room (user_of c w).id w.db) room msg (trim_space msg.body) c w
          n)

  announced_db :
      (room : Uuid) (c : ℕ) (o : Db × Option Message) (w : World Db)
      → (announce_in_room store parse room c o w).db ≡ o.0
  unfolding announce_in_room
  announced_db room c (db, none) w = refl
  announced_db room c (db, some m) w = refl

  -- A message of a member is stored.
  member_db :
      (now : ℕ) (msg : ClientEvent) (c : ℕ) (w : World Db) (room : Uuid)
      → msg.event_type ≡ codes "message"
      → (is_nil (trim_space msg.body) && is_nil msg.attachment_url) ≡ false
      → is_nil msg.room_id ≡ false
      → parse msg.room_id ≡ some room
      → store.is_room_member room (user_of c w).id w.db ≡ some true
      → (handle_client_event store parse now msg c w).db
        ≡ (store.create_message
            (some room)
            (user_of c w).id
            none
            (trim_space msg.body)
            msg.attachment_url
            (codes "text")
            w.db).0
  unfolding send_if_member post_in_room
  member_db now msg c w room t body r p member =
      rw (message_in_room now msg c w room t body r p, member) (announced_db room c _ w)

  -- A message event with something in it, from a member of the room, that the store accepts while the
  -- queue of a sound hub is empty: the database is the one that the store has made of it, and the next
  -- delivery sends the stored message once to each connection that is subscribed to the room, and
  -- nothing to any other one.
  pub message_delivered :
      (now later : ℕ) (msg : ClientEvent) (c b : ℕ) (w : World Db) (room : Uuid) (db : Db)
      (m : Message)
      → msg.event_type ≡ codes "message"
      → (is_nil (trim_space msg.body) && is_nil msg.attachment_url) ≡ false
      → is_nil msg.room_id ≡ false
      → parse msg.room_id ≡ some room
      → store.is_room_member room (user_of c w).id w.db ≡ some true
      → store.create_message
          (some room)
          (user_of c w).id
          none
          (trim_space msg.body)
          msg.attachment_url
          (codes "text")
          w.db
        ≡ (db, some m)
      → w.hub.queue ≡ []
      → IsSound w.hub
      → ((handle_client_event store parse now msg c w).db ≡ db)
        × ((run_step later Selected.from_broadcast
                (handle_client_event store parse now msg c w).hub).conn_at
              b
            ≡ (if in_set room b w.hub.rooms
                then enqueue
                    (Event.message (payload_of (user_of c w) (some room) none m))
                    (w.hub.conn_at b)
                else w.hub.conn_at b))
  unfolding send_if_member post_in_room announce_in_room broadcast_room run_step
  message_delivered now later msg c b w room db m t body r p member created q s = (
    member_db now msg c w room t body r p member ∙ ap (λ o. o.0) created,
    rw
        (
          message_in_room now msg c w room t body r p,
          member,
          created,
          q,
          send_if_member,
          post_in_room,
          announce_in_room,
        )
        (ground (arith, delivered)),
  )
    where
      event : Event
      event = Event.message (payload_of (user_of c w) (some room) none m)

      msg_out : OutboundMessage
      msg_out = record { room_id = some room; user_id = none; event = event; exclude = none }

      delivered : (send msg_out (record w.hub { queue = [] })).conn_at b ≡ (
          if in_set room b w.hub.rooms && true
          then enqueue event (w.hub.conn_at b)
          else w.hub.conn_at b)
      delivered = send_delivers msg_out (record w.hub { queue = [] }) b (queued-IsSound [] w.hub s)
