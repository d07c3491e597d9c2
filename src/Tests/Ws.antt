-- ===== src/Tests/Ws.antt =====
-- Histories of the hub of internal/ws, with a store that keeps only who is a member of which room.
use livechat_server.Base.{
  ℕ, ◌≡◌, refl, Bool, true, false, not, ◌&&◌, ◌||◌, ◌==◌, if◌then◌else◌, List, [], ◌∷◌, Text,
  Option, none, some, codes, text_eq, is_nil, lookup, insert, contains, update, keep_if,
}
use livechat_server.Strings.{is_space, trim_left, trim_right, trim_space}
use livechat_server.Strings.Ascii.{ascii}
use livechat_server.Ws.Messages.{Uuid, Event, ClientEvent}
use livechat_server.Ws.Sets.{mark, unmark, set_of, add_under, in_set}
use livechat_server.Ws.Hub.{
  Conn, User, OutboundMessage, Selected, new_hub, new_conn, enqueue, enqueue_each, all_connections,
  broadcast_presence, add_conn, remove_conn, leaves_user, send, subscribe_room, run_step,
}
use livechat_server.Ws.Hub.Sound.{IsSound}
use livechat_server.Ws.Hub.Delivery.{send_delivers}
use livechat_server.Ws.Hub.Presence.{add_conn_announces, remove_conn_announces}
use livechat_server.Ws.Conn.{
  World, Store, Message, join_room, add_room, handle_client_event, payload_of,
}
use livechat_server.Ws.Conn.Messages.{nonmember_silent, message_delivered}
use livechat_server.Ws.Conn.Rooms.{HasAgreement, has_uuid, handle_client_event-HasAgreement}
use livechat_server.Ws.Silence.{received, is_quiet, removed_silent}
use livechat_server.Ws.Histories.{Round, step, run, hub-IsSound}

abbrev pub Members : Type 0
Members = List (Uuid × Uuid)

abbrev stored : Option Uuid → Uuid → Option Uuid → Text → Text → Text → Message
stored room user recipient body url message_type = record {
  id = 7 ∷ [];
  room_id = room;
  sender_id = user;
  recipient_id = recipient;
  body = body;
  message_type = message_type;
  attachment_url = url;
  created_at = 5;
  sender_name = [];
  sender_avatar = [];
}

-- What connection 0 says.
abbrev said : Message
said = stored (some (codes "r")) (1 ∷ []) none (codes "hi") [] (codes "text")

abbrev is_pair : Uuid → Uuid → Uuid × Uuid → Bool
is_pair room user (r, k) = text_eq r room && text_eq k user

abbrev has_pair : Uuid → Uuid → Members → Bool
has_pair room user [] = false
has_pair room user (p ∷ l) = is_pair room user p || has_pair room user l

abbrev pub store : Store Members
store = record {
  add_room_member = λ room user role db. (room, user) ∷ db;
  remove_room_member = λ room user db. keep_if (λ p. not (is_pair room user p)) db;
  is_room_member = λ room user db. some (has_pair room user db);
  create_message = λ room user recipient body url message_type db.
      (db, some (stored room user recipient body url message_type));
  update_room_read_at = λ room user now db. db;
}

abbrev pub parse : Text → Option Uuid
parse s = if is_nil s then none else some s

abbrev pub user : ℕ → User
user k = record {
  id = k ∷ [];
  email = [];
  username = codes "user";
  avatar_url = [];
  created_at = 0;
}

-- Connections 0 and 2 are of user 1, the others of user 9.
abbrev pub conns : ℕ → Conn
conns c = new_conn (if c == 0 || c == 2 then user 1 else user 9)

abbrev pub event : Text → Text → ClientEvent
event kind body = record {
  event_type = kind;
  room_id = codes "r";
  recipient_id = [];
  body = body;
  attachment_url = [];
  is_typing = false;
}

abbrev pub rounds : List (ℕ × Round)
rounds =
    (1, Round.hub (Selected.from_register 0))
    ∷ (2, Round.hub (Selected.from_register 1))
    ∷ (3, Round.read (event (codes "join_room") []) 0)
    ∷ []

abbrev new_world : World Members
new_world = record { hub = new_hub conns; db = [] }

new_world-HasAgreement : HasAgreement new_world.hub
unfolding in_set set_of lookup contains has_uuid new_conn new_hub
new_world-HasAgreement k b = refl

joined : World Members
unfolding new_conn run step run_step add_conn broadcast_presence add_under insert lookup text_eq
    mark contains set_of all_connections enqueue_each enqueue update handle_client_event join_room
    add_room subscribe_room keep_if new_hub
joined = run ⦃u = ascii⦄ store parse rounds new_world

joined-IsSound : IsSound joined.hub
unfolding joined
joined-IsSound = hub-IsSound ⦃u = ascii⦄ store parse conns [] rounds

hub-IsSound_example :
    IsSound (run ⦃u = ascii⦄ store parse rounds (record { hub = new_hub conns; db = [] })).hub
hub-IsSound_example = hub-IsSound ⦃u = ascii⦄ store parse conns [] rounds

-- Connection 0 joined the room, and connection 1 did not.
joined_rooms :
    (in_set (codes "r") 0 joined.hub.rooms ≡ true) × (in_set (codes "r") 1 joined.hub.rooms ≡ false)
unfolding joined in_set set_of lookup contains text_eq
joined_rooms = (refl, refl)

notice : OutboundMessage
notice = record {
  room_id = some (codes "r");
  user_id = none;
  event = Event.error (codes "closing");
  exclude = none;
}

send_delivers_example :
    (send notice joined.hub).conn_at 0
    ≡ enqueue (Event.error (codes "closing")) (joined.hub.conn_at 0)
unfolding joined notice in_set set_of lookup contains text_eq
send_delivers_example = send_delivers notice joined.hub 0 joined-IsSound

add_conn_announces_example :
    (add_conn 4 2 joined.hub).conn_at 1
    ≡ enqueue
        (Event.presence (record { user_id = 1 ∷ []; online = true; last_seen = 4 }))
        (joined.hub.conn_at 1)
unfolding joined in_set set_of lookup contains text_eq new_conn
add_conn_announces_example = add_conn_announces 4 2 1 joined.hub joined-IsSound

remove_conn_announces_example :
    (remove_conn 4 0 joined.hub).conn_at 1
    ≡ enqueue
        (Event.presence (record { user_id = 1 ∷ []; online = false; last_seen = 4 }))
        (joined.hub.conn_at 1)
unfolding joined leaves_user in_set set_of lookup contains text_eq unmark keep_if
remove_conn_announces_example = remove_conn_announces 4 0 1 joined.hub joined-IsSound

-- Connection 1 is not a member, and connection 0 is.
nonmember_silent_example :
    ((handle_client_event store parse ⦃u = ascii⦄ 4
        (event (codes "message") (codes "hi"))
        1
        joined).db
      ≡ joined.db)
    × ((handle_client_event store parse ⦃u = ascii⦄ 4
          (event (codes "message") (codes "hi"))
          1
          joined).hub.queue
        ≡ joined.hub.queue)
unfolding joined text_eq trim_space trim_left trim_right is_space
nonmember_silent_example =
    nonmember_silent ⦃u = ascii⦄ store parse 4 (event (codes "message") (codes "hi")) 1 joined
      (codes "r") refl refl refl refl (λ e. cc)

message_delivered_example :
    ((handle_client_event store parse ⦃u = ascii⦄ 4
        (event (codes "message") (codes "hi"))
        0
        joined).db
      ≡ joined.db)
    × ((run_step 5 Selected.from_broadcast
            (handle_client_event store parse ⦃u = ascii⦄ 4
              (event (codes "message") (codes "hi"))
              0
              joined).hub).conn_at
          0
        ≡ enqueue
            (Event.message (payload_of (user 1) (some (codes "r")) none said))
            (joined.hub.conn_at 0))
unfolding joined text_eq trim_space trim_left trim_right is_space in_set set_of lookup contains
message_delivered_example =
    message_delivered ⦃u = ascii⦄ store parse 4 5 (event (codes "message") (codes "hi")) 0 0 joined
      (codes "r") joined.db said refl refl refl refl refl refl refl joined-IsSound

handle_client_event-HasAgreement_example :
    HasAgreement
      (handle_client_event store parse ⦃u = ascii⦄ 4 (event (codes "join_room") []) 0 new_world).hub
handle_client_event-HasAgreement_example =
    handle_client_event-HasAgreement ⦃u = ascii⦄ store parse 4 (event (codes "join_room") []) 0
      new_world new_world-HasAgreement

-- Connection 0 leaves; then connection 1 joins the room and speaks there.
abbrev later : List (ℕ × Round)
later =
    (8, Round.read (event (codes "join_room") []) 1)
    ∷ (9, Round.read (event (codes "message") (codes "hi")) 1)
    ∷ (10, Round.hub Selected.from_broadcast)
    ∷ (11, Round.write 0)
    ∷ []

abbrev last_world : World Members
last_world =
    run ⦃u = ascii⦄ store parse ((7, Round.hub (Selected.from_unregister 0)) ∷ later) joined

abbrev left_alone : Conn
left_alone = last_world.hub.conn_at 0

removed_silent_example :
    (received left_alone ≡ received (joined.hub.conn_at 0))
    × ((joined.hub.conn_at 0).send ≡ [] → left_alone.send ≡ [])
unfolding is_quiet
removed_silent_example =
    removed_silent ⦃u = ascii⦄ store parse 7 0 later joined joined-IsSound
      (refl, (refl, (refl, (refl, tt))))
