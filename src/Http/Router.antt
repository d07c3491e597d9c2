-- ===== src/Http/Router.antt =====
-- internal/http/router.go: the routes, and what stands before their handlers. How chi matches a path
-- with a pattern is a parameter; where no route fits, chi answers by itself.
pub mod Guard
pub mod Access
pub mod Files
use livechat_server.Base.{
  ℕ, ◌+◌, ◌≡◌, Bool, true, false, ◌&&◌, List, [], ◌∷◌, Text, codes, text_eq, Option, none, some,
  if◌then◌else◌, StrMap, ℤ,
}
use livechat_server.Strings.{Unicode}
use livechat_server.Store.Queries.{Dialect, Outcome, query, Call}
use livechat_server.Store.Rows.{Tables}
use livechat_server.Http.Types.{Request, Response, Packages, Env, Handler, Payload, respond}
use livechat_server.Http.Token.{require}
use livechat_server.Http.Users.{AuthHandler, register, login, me, search}
use livechat_server.Http.Rooms
use livechat_server.Http.Messages.{room_history, dm_history}
use livechat_server.Http.Uploads.{UploadsHandler, upload}

pub data Endpoint : Type 0 where
  health register_user log_in who_am_i find_users : Endpoint
  list_rooms create_room join_room leave_room room_messages dms uploads : Endpoint

pub record Route : Type 0 where
  pub method : Text
  pub pattern : Text
  -- in the group behind Require
  pub guarded : Bool
  pub endpoint : Endpoint

pub record RouterDeps : Type 0 where
  pub auth : AuthHandler
  pub uploads : UploadsHandler
  pub dialect : Dialect
  pub cors_origins : List Text

abbrev pub route : Text → Text → Bool → Endpoint → Route
route method pattern guarded endpoint = record {
  method = method;
  pattern = pattern;
  guarded = guarded;
  endpoint = endpoint;
}

unfoldable pub routes : List Route
routes =
    route (codes "GET") (codes "/health") false health
    ∷ route (codes "POST") (codes "/api/auth/register") false register_user
    ∷ route (codes "POST") (codes "/api/auth/login") false log_in
    ∷ route (codes "GET") (codes "/api/auth/me") true who_am_i
    ∷ route (codes "GET") (codes "/api/users") true find_users
    ∷ route (codes "GET") (codes "/api/rooms") true list_rooms
    ∷ route (codes "POST") (codes "/api/rooms") true create_room
    ∷ route (codes "POST") (codes "/api/rooms/{roomId}/join") true join_room
    ∷ route (codes "POST") (codes "/api/rooms/{roomId}/leave") true leave_room
    ∷ route (codes "GET") (codes "/api/rooms/{roomId}/messages") true room_messages
    ∷ route (codes "GET") (codes "/api/dms/{userId}/messages") true dms
    ∷ route (codes "POST") (codes "/api/uploads") true uploads
    ∷ []

-- The handler of "/health": whether a ping of the database is answered.
unfoldable pub check_health : Handler
check_health env r t =
    if (env.call 0).reached && (env.call 0).answered
    then (t, respond 200 (Payload.plain (codes "ok")))
    else (t, respond 503 (Payload.plain (codes "db down")))

module _ ⦃u : Unicode⦄ (p : Packages) (deps : RouterDeps)
    (match : Text → Text → Option (StrMap Text)) where
  unfoldable pub handler_of : Endpoint → Handler
  handler_of health = check_health
  handler_of register_user = register p deps.auth
  handler_of log_in = login p deps.auth deps.dialect
  handler_of who_am_i = me
  handler_of find_users = search deps.dialect
  handler_of list_rooms = Rooms.list
  handler_of create_room = Rooms.create p
  handler_of join_room = Rooms.join p
  handler_of leave_room = Rooms.leave p
  handler_of room_messages = room_history p
  handler_of dms = dm_history p
  handler_of uploads = upload p deps.uploads

  unfoldable pub find_route : Request → List Route → Option (Route × StrMap Text)
  find_route r [] = none
  find_route r (x ∷ l) = elim (match x.pattern r.path) [
    | none ↦ find_route r l
    | some params ↦ if text_eq x.method r.method then some (x, params) else find_route r l
  ]

  -- A handler behind what its group puts before it.
  unfoldable pub serve_route : Route → Handler
  serve_route x env r t =
      if x.guarded
      then require p deps.auth.jwt_secret (handler_of x.endpoint) env r t
      else handler_of x.endpoint env r t

  unfoldable pub serve : Env → Request → Tables → Option (Tables × Response)
  serve env r t = elim (find_route r routes) [
    | none ↦ none
    | some (x, params) ↦ some (serve_route x env (record r { params = params; user = none }) t)
  ]
