-- ===== src/Tests/System.antt =====
-- The server put together, with the settings of an empty environment.
use livechat_server.Base.{
  Bool, false, lookup, keep_if, Text, Option, some, StrMap, text_eq, if◌then◌else◌, ◌≡◌, refl, List,
  [], ◌∷◌, ◌++◌, codes, none, true,
}
use livechat_server.Strings.Ascii.{ascii}
use livechat_server.Config.{Config, load}
use livechat_server.Store.Sound.{IsSound}
use livechat_server.Ws.Hub.{Selected, run_step, deliver_first, new_hub}
use livechat_server.Ws.Histories.{Round}
use livechat_server.Ws.Conn.{World}
use livechat_server.Ws.Database.{Database}
use livechat_server.System.Privacy.{IsShown, history_private}
use livechat_server.Store.Models.{User}
use livechat_server.Store.Queries.{query, statement, find_first, any, inner_join}
use livechat_server.Store.Users.{create_user, insert_user, get_user_by_id}
use livechat_server.Store.Rooms.{
  create_room, insert_room, add_room_member, insert_member, is_room_member, get_room,
  ensure_default_room, seed_unless_found, after_insert,
}
use livechat_server.Store.Messages.{create_message, insert_message, list_room_messages, page}
use livechat_server.Store.Histories.{apply, apply_all}
use livechat_server.Strings.{to_lower, trim_space, trim_right, trim_left, drop_bytes, is_space}
use livechat_server.Strings.Sorting.{sort_by, insert_sorted}
use livechat_server.Strings.Decimal.{atoi}
use livechat_server.Http.Token.{
  require, authenticate, extract_token, parse_token, has_prefix, verify,
}
use livechat_server.Http.Users.{limit_param}
use livechat_server.Http.Messages.{room_history, history_if_member}
use livechat_server.Ws.Histories as Rounds
use livechat_server.Http.Types.{Request, Payload, respond, parse_time_param}
use livechat_server.Http.Router.{
  Endpoint, Route, route, routes, find_route, serve, serve_route, handler_of,
}
use livechat_server.System.{deps_of, Input, start, step, run}
use livechat_server.System.Connections.{AreOfUsers, connections-AreOfUsers}
use livechat_server.System.Main.{Life, main_again, main_again-IsSound}
use livechat_server.Store.Rows.{Tables}
use livechat_server.System.Growth.{HasGrown}
use livechat_server.Tests.Store.{call, dialect, filled, filled-IsSound, two}
use livechat_server.Tests.Packages.{packages}
use livechat_server.Tests.Http.{ann, env, request, token}
use livechat_server.Tests.Ws.{conns}
use livechat_server.Tests.Sockets.{calls, den, match, me_request, reads}

abbrev config : Config
config = load (λ key. []) (λ value. none)

-- ann registers, asks who she is, opens a socket, joins the private room and speaks in it.
abbrev inputs : List Input
inputs =
    Input.request (env 10 5)
      (record (request [] (codes "1")) { method = codes "POST"; path = codes "/api/auth/register" })
    ∷ Input.request (env 30 7) (me_request (codes "Bearer " ++ token ann 5))
    ∷ Input.socket (env 31 8) true 5 (me_request (codes "Bearer " ++ token ann 5))
    ∷ Input.round 9 (Round.read (den (codes "join_room")) 5)
    ∷ Input.round 10 (Round.read (den (codes "message")) 5)
    ∷ Input.round 11 (Round.hub Selected.from_broadcast)
    ∷ []

abbrev begun : World Database
begun = start dialect (call 50 1 true) (call 51 1 true) (call 52 1 true) (8 ∷ []) conns filled

connections-AreOfUsers_example :
    AreOfUsers
      (run ⦃u = ascii⦄ config packages dialect match calls reads inputs begun).db.tables
      (run ⦃u = ascii⦄ config packages dialect match calls reads inputs begun).hub.users
connections-AreOfUsers_example =
    connections-AreOfUsers ⦃u = ascii⦄ config packages dialect match calls reads (call 50 1 true)
      (call 51 1 true) (call 52 1 true) (8 ∷ []) conns filled inputs
      (refl, (refl, (refl, (refl, (refl, (refl, tt))))))

-- The first user of the tables, who is a member of the private room.
abbrev ann_first : User
ann_first = record ann { id = 1 ∷ [] }

abbrev history_request : Request
history_request = record (request (codes "Bearer " ++ token ann_first 5) []) {
  method = codes "GET";
  path = codes "/api/rooms/x/messages";
  query = (codes "limit", codes "1") ∷ [];
}

-- Every path fits the pattern of a history, with the private room.
abbrev match_room : Text → Text → Option (StrMap Text)
match_room pattern path =
    if text_eq pattern (codes "/api/rooms/{roomId}/messages")
    then some ((codes "roomId", 4 ∷ []) ∷ [])
    else none

abbrev history_route : Route
history_route =
    route (codes "GET") (codes "/api/rooms/{roomId}/messages") true Endpoint.room_messages

abbrev delivery : List Input
delivery = Input.round 11 (Round.hub Selected.from_broadcast) ∷ []

abbrev reached : World Database
reached = run ⦃u = ascii⦄ config packages dialect match_room calls reads delivery begun

history_answered :
    serve ⦃u = ascii⦄ packages
      (deps_of config dialect)
      match_room
      (env 30 8)
      history_request
      reached.db.tables
    ≡ some (reached.db.tables, respond 200 (Payload.messages (two ∷ [])))
unfolding run step start deps_of serve serve_route find_route routes handler_of require authenticate
    parse_token extract_token has_prefix verify get_user_by_id to_lower trim_space trim_right
    trim_left drop_bytes is_space apply_all apply create_user insert_user create_room insert_room
    add_room_member insert_member create_message insert_message statement any text_eq
    list_room_messages query page sort_by insert_sorted keep_if inner_join room_history
    history_if_member is_room_member lookup limit_param atoi parse_time_param find_first
    ensure_default_room seed_unless_found after_insert get_room Rounds.step run_step deliver_first
    new_hub
history_answered = refl

history_private_example :
    IsShown ⦃u = ascii⦄ packages config.jwt_secret
      (env 30 8)
      history_request
      ((codes "roomId", 4 ∷ []) ∷ [])
      reached.db.tables
      (two ∷ [])
unfolding routes find_route text_eq
history_private_example =
    history_private ⦃u = ascii⦄ config packages dialect match_room calls reads (call 50 1 true)
      (call 51 1 true) (call 52 1 true) (8 ∷ []) conns filled delivery (env 30 8) history_request
      history_route ((codes "roomId", 4 ∷ []) ∷ []) reached.db.tables (two ∷ []) filled-IsSound refl
      refl history_answered

-- One run of the program without a variable in its environment, and one that finds no database.
abbrev life : Bool → Life
life opens = record {
  environment = λ key. [];
  opens = opens;
  find_call = call 50 1 true;
  insert_call = call 51 1 true;
  get_call = call 52 1 true;
  creator = 8 ∷ [];
  conns = conns;
  calls = calls;
  reads = reads;
  inputs = inputs;
  breaks = false;
}

abbrev last_tables : Tables
last_tables =
    main_again ⦃u = ascii⦄ packages dialect (λ s. none) match
      (life true ∷ life false ∷ life true ∷ []) filled

main_again-IsSound_example : IsSound last_tables × HasGrown filled last_tables
main_again-IsSound_example =
    main_again-IsSound ⦃u = ascii⦄ packages dialect (λ s. none) match
      (life true ∷ life false ∷ life true ∷ []) filled filled-IsSound
