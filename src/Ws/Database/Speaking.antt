-- ===== src/Ws/Database/Speaking.antt =====
-- Joining a room and speaking in it, from the event down to the tables and back to the connection.
use livechat_server.Base.{
  ℕ, ◌<◌, ◌++◌, ◌∷◌, length, ◌+◌, ◌≡◌, refl, true, false, ◌&&◌, ap, ◌∙◌, [], Text, Option, none,
  some, arith, text_eq, text_eq_iff, codes, is_nil, ==_iff, update,
}
use livechat_server.Strings.{Unicode, trim_space}
use livechat_server.Store.Models.{Uuid, Message}
use livechat_server.Store.Queries.{Call, any}
use livechat_server.Store.Rows.{Tables, MessageRow, has_user, has_room}
use livechat_server.Store.Rooms.{add_room_member}
use livechat_server.Store.Messages.{plain_message}
use livechat_server.Ws.Messages.{ClientEvent, Event}
use livechat_server.Ws.Sets.{in_set, in_set-add_under}
use livechat_server.Ws.Hub.{Selected, run_step, enqueue, subscribe_room}
use livechat_server.Ws.Hub.Sound.{IsSound}
use livechat_server.Ws.Conn.{
  World, Store, user_of, join_room, handle_client_event, payload_of, add_room,
}
use livechat_server.Ws.Conn.Sound.{handle_client_event-IsSound}
use livechat_server.Ws.Conn.Messages.{message_delivered}
use livechat_server.Ws.Database.{Database, store_over, made_one, answer}
use livechat_server.Ws.Database.Writing.{write_times, write_two}
use livechat_server.Ws.Database.Statements.{
  AreUp, add_room_member-any, users-add_room_member, message_row, messages-create_message,
  create_message-ok, is_room_member-ok, with_second,
}

module _ ⦃u : Unicode⦄ (calls reads : ℕ → Call) (parse : Text → Option Uuid) (now : ℕ)
    (join msg : ClientEvent) (c : ℕ) (w : World Database) (room : Uuid) where
  abbrev pub store : Store Database
  store = store_over calls reads

  -- The world once the connection has joined.
  abbrev pub joined : World Database
  joined = handle_client_event store parse now join c w

  -- The tables then.
  abbrev joined_tables : Tables
  joined_tables =
      (add_room_member (calls w.db.made) room (user_of c w).id (codes "member") w.db.tables).0

  joined_lem :
      join.event_type ≡ codes "join_room"
      → parse join.room_id ≡ some room
      → (joined.db ≡ made_one w.db joined_tables)
        × (in_set room c joined.hub.rooms ≡ true)
        × (joined.hub.queue ≡ w.hub.queue)
        × (user_of c joined ≡ user_of c w)
  unfolding handle_client_event join_room text_eq subscribe_room enqueue add_room update
  joined_lem ev p =
      rw (ev, handle_client_event, p, join_room)
        (
          refl,
          ground (
            arith,
            in_set-add_under room room c c w.hub.rooms,
            text_eq_iff room room,
            ==_iff c c,
          ),
          refl,
          ground (arith, ==_iff c c),
        )

  joined_conn :
      join.event_type ≡ codes "join_room"
      → parse join.room_id ≡ some room
      → joined.hub.conn_at c
        ≡ enqueue
            (Event.room_joined (record { room_id = room; user_id = (user_of c w).id }))
            (add_room room (w.hub.conn_at c))
  unfolding handle_client_event join_room text_eq subscribe_room update
  joined_conn ev p = rw (ev, handle_client_event, p, join_room) (ground (arith, ==_iff c c))

  -- The row of the message.
  abbrev pub said : MessageRow
  said =
      message_row (calls (w.db.made + 1)) room (user_of c w).id (trim_space msg.body)
        msg.attachment_url (codes "text")

  -- What the store makes of the message once the connection has joined.
  abbrev made : Database × Option Message
  made =
      store.create_message (some room) (user_of c joined).id none (trim_space msg.body)
        msg.attachment_url (codes "text") joined.db

  made_lem :
      AreUp calls
      → join.event_type ≡ codes "join_room"
      → parse join.room_id ≡ some room
      → has_room room w.db.tables ≡ true
      → has_user (user_of c w).id w.db.tables ≡ true
      → any (λ m. text_eq (calls (w.db.made + 1)).id m.id) w.db.tables.messages ≡ false
      → (made.1 ≡ some (plain_message said))
        × (made.0.tables.messages ≡ w.db.tables.messages ++ said ∷ [])
  made_lem up ev p has_r has_u fresh =
      let (db, subscribed, queue, user) = joined_lem ev p in
      let k : Call = calls (w.db.made + 1) in
      let (users, rooms, messages) =
        users-add_room_member (calls w.db.made) room (user_of c w).id (codes "member")
          w.db.tables in
      (
        rw (user, db)
            (ap answer (
              create_message-ok k room (user_of c w).id (trim_space msg.body) msg.attachment_url
                (codes "text") joined_tables (up (w.db.made + 1)).0 (up (w.db.made + 1)).1
                (rw messages fresh) (rw rooms has_r) (rw users has_u))),
        rw (user, db)
            (messages-create_message k room (user_of c w).id (trim_space msg.body)
                msg.attachment_url (codes "text") joined_tables (up (w.db.made + 1)).0
                (rw messages fresh) (rw rooms has_r) (rw users has_u)
              ∙ ap (λ l. l ++ said ∷ []) messages),
      )

  -- The connection's user is a member of the room then.
  joined_member :
      AreUp calls
      → AreUp reads
      → join.event_type ≡ codes "join_room"
      → parse join.room_id ≡ some room
      → has_room room w.db.tables ≡ true
      → has_user (user_of c w).id w.db.tables ≡ true
      → store.is_room_member room (user_of c joined).id joined.db ≡ some true
  joined_member up reads_up ev p has_r has_u =
      let (db, subscribed, queue, user) = joined_lem ev p in
      rw (user, db)
        (is_room_member-ok (reads (w.db.made + 1)) room (user_of c w).id joined_tables
          (reads_up (w.db.made + 1)).0 (reads_up (w.db.made + 1)).1
          (add_room_member-any (calls w.db.made) room (user_of c w).id (codes "member") w.db.tables
            (up w.db.made).0 has_r has_u))

  -- While the store answers, a connection of a user that the tables hold joins a room that they hold,
  -- be it private, and then speaks in it; the hub is sound, its queue empty, and fewer than 63 events
  -- wait for the connection. Then the message is stored as a new row, and once the hub has delivered
  -- it and writeLoop has written what waits, the connection has got what waited before, the
  -- confirmation of the join, and the message as it was stored.
  pub join_message_delivered :
      (later : ℕ)
      → AreUp calls
      → AreUp reads
      → join.event_type ≡ codes "join_room"
      → parse join.room_id ≡ some room
      → msg.event_type ≡ codes "message"
      → (is_nil (trim_space msg.body) && is_nil msg.attachment_url) ≡ false
      → is_nil msg.room_id ≡ false
      → parse msg.room_id ≡ some room
      → has_room room w.db.tables ≡ true
      → has_user (user_of c w).id w.db.tables ≡ true
      → any (λ m. text_eq (calls (w.db.made + 1)).id m.id) w.db.tables.messages ≡ false
      → w.hub.queue ≡ []
      → IsSound w.hub
      → length (w.hub.conn_at c).send < 63
      → ((handle_client_event store parse now msg c joined).db.tables.messages
          ≡ w.db.tables.messages ++ said ∷ [])
        × ((write_times (length (w.hub.conn_at c).send + 2) (
              (run_step later Selected.from_broadcast
                  (handle_client_event store parse now msg c joined).hub).conn_at
                c)).written
            ≡ (w.hub.conn_at c).written
              ++ ((w.hub.conn_at c).send
                  ++ Event.room_joined (record { room_id = room; user_id = (user_of c w).id })
                    ∷ Event.message (payload_of (user_of c w) (some room) none (plain_message said))
                    ∷ []))
  join_message_delivered later up reads_up ev p ev' filled named p' has_r has_u fresh empty s few =
      let (db, subscribed, queue, user) = joined_lem ev p in
      let (created, stored) = made_lem up ev p has_r has_u fresh in
      let (in_db, delivered) =
        message_delivered store parse now later msg c c joined room made.0 (plain_message said) ev'
          filled named p' (joined_member up reads_up ev p has_r has_u)
          (with_second made (some (plain_message said)) created) (queue ∙ empty)
          (handle_client_event-IsSound store parse now join c w s) in
      (
        ap (λ d. d.tables.messages) in_db ∙ stored,
        rw (rw (subscribed, user, joined_conn ev p) at delivered)
            (write_two _ _ room (w.hub.conn_at c) few),
      )
