-- ===== src/Tests/Sockets.antt =====
-- The router, and the hub over the tables.
use livechat_server.Base.{
  arith, ℕ, ◌+◌, ◌≡◌, ◌↔◌, refl, true, false, [], ◌∷◌, ◌++◌, Text, Option, none, some,
  if◌then◌else◌, codes, text_eq, pos, StrMap, contains, lookup,
}
use livechat_server.Strings.{is_space, trim_left, trim_right, trim_space, to_lower, drop_bytes}
use livechat_server.Strings.Ascii.{ascii}
use livechat_server.Store.Models.{User}
use livechat_server.Store.Queries.{Call, query, statement, find_first, any}
use livechat_server.Store.Users.{create_user, insert_user}
use livechat_server.Store.Rooms.{create_room, insert_room, add_room_member, insert_member}
use livechat_server.Store.Messages.{create_message, insert_message, plain_message}
use livechat_server.Store.Histories.{apply, apply_all}
use livechat_server.Http.Types.{Request, Env, Payload, respond}
use livechat_server.Http.Token.{
  authenticate, extract_token, parse_token, has_prefix, verify, Verdict,
}
use livechat_server.Store.Users.{get_user_by_id}
use livechat_server.Http.Users.{me}
use livechat_server.Http.Router.{RouterDeps, Endpoint, routes, route, find_route, handler_of}
use livechat_server.Http.Router.Access.{new_router_guarded}
use livechat_server.Http.Uploads.{upload, read_form, save, kept_name, from_dot, last_part}
use livechat_server.Http.Router.Files.{new_router, answered, from_dir, upload_fetched}
use livechat_server.Http.Sockets.{serve_ws, serve_ws-registered}
use livechat_server.Ws.Messages.{ClientEvent, Event}
use livechat_server.Ws.Sets.{set_of, in_set}
use livechat_server.Ws.Hub.{Conn, Selected, new_hub, new_conn, run_step}
use livechat_server.Ws.Hub.Presence.{is_registered}
use livechat_server.Ws.Hub.Sound.{IsSound}
use livechat_server.Ws.Conn.{World, handle_client_event, payload_of}
use livechat_server.Ws.Histories.{run, hub-IsSound}
use livechat_server.Ws.Database.{Database, store_over}
use livechat_server.Ws.Database.Writing.{write_times}
use livechat_server.Store.Rows.{MessageRow}
use livechat_server.Ws.Database.Speaking.{join_message_delivered}
use livechat_server.Ws.Database.Statements.{message_row}
use livechat_server.Tests.Store.{call, dialect, filled}
use livechat_server.Tests.Packages.{packages}
use livechat_server.Tests.Http.{auth, env, request, token, ann, with_ann}
use livechat_server.Tests.Ws.{conns, user, parse}

abbrev deps : RouterDeps
deps = record {
  auth = auth;
  uploads = record { upload_dir = []; max_upload_mb = pos 10 };
  dialect = dialect;
  cors_origins = [];
}

-- A path fits the pattern that it is.
abbrev pub match : Text → Text → Option (StrMap Text)
match pattern path = if text_eq pattern path then some [] else none

abbrev pub me_request : Text → Request
me_request header = record (request header []) { method = codes "GET"; path = codes "/api/auth/me" }

new_router_guarded_example :
    new_router ⦃u = ascii⦄ packages deps match
      (λ o r. none)
      (env 30 7)
      (me_request (codes "Bearer " ++ token ann 5))
      with_ann
    ≡ answered with_ann (respond 200 (Payload.user ann))
unfolding routes find_route text_eq authenticate extract_token parse_token has_prefix to_lower
    trim_space trim_right trim_left drop_bytes is_space verify get_user_by_id query find_first
    handler_of me
new_router_guarded_example =
    new_router_guarded ⦃u = ascii⦄ packages deps match (λ o r. none) (env 30 7)
      (me_request (codes "Bearer " ++ token ann 5)) with_ann
      (route (codes "GET") (codes "/api/auth/me") true Endpoint.who_am_i) [] refl refl refl

serve_ws-registered_example :
    (is_registered 0
        (serve_ws ⦃u = ascii⦄ packages
          (codes "s")
          (env 30 7)
          true
          0
          (request (codes "Bearer " ++ token ann 5) [])
          with_ann
          (new_hub conns)).1
      ≡ true)
    ↔ ((user : User) × (authenticate ⦃u = ascii⦄ packages
            (codes "s")
            (env 30 7)
            (request (codes "Bearer " ++ token ann 5) [])
            with_ann
          ≡ Verdict.allowed user)
        × (true ≡ true)
        × (((serve_ws ⦃u = ascii⦄ packages
                (codes "s")
                (env 30 7)
                true
                0
                (request (codes "Bearer " ++ token ann 5) [])
                with_ann
                (new_hub conns)).1.conn_at
              0).user
            ≡ user))
unfolding new_hub new_conn lookup in_set contains set_of
serve_ws-registered_example =
    serve_ws-registered ⦃u = ascii⦄ packages (codes "s") (env 30 7) true 0
      (request (codes "Bearer " ++ token ann 5) []) with_ann (new_hub conns) refl

abbrev pub calls : ℕ → Call
calls n = call (40 + n) 30 true

abbrev pub reads : ℕ → Call
reads n = call 0 30 true

-- A connection of the user who is not in the room of the tables, which is private.
abbrev stranger : ℕ → Conn
stranger c = new_conn (record (user 3) { username = codes "bob" })

abbrev pub den : Text → ClientEvent
den kind = record {
  event_type = kind;
  room_id = 4 ∷ [];
  recipient_id = [];
  body = codes "hi";
  attachment_url = [];
  is_typing = false;
}

abbrev opened : World Database
opened = record { hub = new_hub stranger; db = record { tables = filled; made = 0 } }

opened-IsSound : IsSound opened.hub
unfolding run
opened-IsSound = hub-IsSound ⦃u = ascii⦄ (store_over calls reads) parse stranger opened.db []

-- The world once the user has joined.
abbrev inside : World Database
inside =
    handle_client_event (store_over calls reads) parse ⦃u = ascii⦄ 31 (den (codes "join_room")) 0
      opened

-- The row of what is said.
abbrev said_row : MessageRow
said_row = message_row (calls 1) (4 ∷ []) (3 ∷ []) (codes "hi") [] (codes "text")

join_message_delivered_example :
    ((handle_client_event
        (store_over calls reads)
        parse
        ⦃u = ascii⦄
        31
        (den (codes "message"))
        0
        inside).db.tables.messages
      ≡ filled.messages ++ said_row ∷ [])
    × ((write_times 2 (
          (run_step 32 Selected.from_broadcast
              (handle_client_event
                (store_over calls reads)
                parse
                ⦃u = ascii⦄
                31
                (den (codes "message"))
                0
                inside).hub).conn_at
            0)).written
        ≡ Event.room_joined (record { room_id = 4 ∷ []; user_id = 3 ∷ [] })
          ∷ Event.message
              (payload_of (stranger 0).user (some (4 ∷ [])) none (plain_message said_row))
          ∷ [])
unfolding new_hub new_conn trim_space trim_left trim_right is_space any text_eq apply_all apply
    create_user insert_user create_room insert_room add_room_member insert_member create_message
    insert_message statement
join_message_delivered_example =
    join_message_delivered ⦃u = ascii⦄ calls reads parse 31 (den (codes "join_room"))
      (den (codes "message")) 0 opened (4 ∷ []) 32 (λ n. (refl, refl)) (λ n. (refl, refl)) refl refl
      refl refl refl refl refl refl refl refl opened-IsSound (omega arith)

-- A form with a file, from the first user.
abbrev filled_form : Env
filled_form = record (env 30 7) {
  upload = record (env 30 7).upload { form = λ limit. some (some (codes "Me.PNG")) };
}

abbrev file_path : Text
file_path = codes "/uploads/" ++ 9 ∷ codes ".png"

abbrev fetching : Request
fetching = record (request [] []) { method = codes "GET"; path = file_path }

abbrev match_file : Text → Text → Option (StrMap Text)
match_file pattern path = if text_eq pattern (codes "/uploads/*") then some [] else none

upload_fetched_example :
    (kept : Text) × ((read_form ⦃u = ascii⦄ packages deps.uploads filled_form.upload).0 ≡ some kept)
    × (new_router ⦃u = ascii⦄ packages deps match_file (λ o r. none) (env 31 8) fetching with_ann
        ≡ from_dir deps.uploads.upload_dir kept)
unfolding upload read_form save kept_name from_dot last_part contains to_lower routes text_eq
upload_fetched_example =
    upload_fetched ⦃u = ascii⦄ packages deps match_file (λ o r. none) filled_form (env 31 8)
      (record (request [] []) { user = some ann }) fetching with_ann with_ann [] refl refl
      (
        refl,
        (refl, (refl, (refl, (refl, (refl, (refl, (refl, (refl, (refl, (refl, (refl, tt))))))))))),
      )
      refl refl
