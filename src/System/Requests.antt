-- ===== src/System/Requests.antt =====
-- What every statement of internal/store keeps is kept by every request to the router.
use livechat_server.Base.{
  ◌+◌, ◌≡◌, Text, Option, none, some, StrMap, arith, Option-cases, Bool-cases, inl, inr,
}
use livechat_server.Strings.{Unicode}
use livechat_server.Store.Rows.{Tables}
use livechat_server.Http.Types.{Request, Response, Packages, Env}
use livechat_server.Http.Token.{require, if_allowed, Verdict, authenticate}
use livechat_server.Http.Users.{me, search}
use livechat_server.Http.Rooms.{own_room, report, with_room}
use livechat_server.Http.Rooms as Handlers
use livechat_server.Http.Uploads.{upload}
use livechat_server.Http.Router.{
  RouterDeps, Route, Endpoint, check_health, handler_of, find_route, serve_route, serve, routes,
}
use livechat_server.System.Keeps.{
  IsLasting, register_keeps, login_keeps, with_user_keeps, create_keeps, join_keeps, leave_keeps,
  room_history_keeps, dm_history_keeps,
}

module _ (Q : Tables → Type 0) (lasting : IsLasting Q) where
  module _ ⦃u : Unicode⦄ (p : Packages) (deps : RouterDeps)
      (match : Text → Text → Option (StrMap Text)) where
    handler_of_keeps :
        (x : Endpoint) (env : Env) (r : Request) (t : Tables)
        → Q t
        → Q (handler_of p deps match x env r t).0
    unfolding handler_of check_health me search upload Handlers.list
    handler_of_keeps Endpoint.health env r t q = ground arith
    handler_of_keeps Endpoint.register_user env r t q =
        register_keeps Q lasting p deps.auth env r t q
    handler_of_keeps Endpoint.log_in env r t q =
        login_keeps Q lasting p deps.auth deps.dialect env r t q
    handler_of_keeps Endpoint.who_am_i env r t q =
        with_user_keeps Q lasting r.user t _ q (λ user. q)
    handler_of_keeps Endpoint.find_users env r t q = q
    handler_of_keeps Endpoint.list_rooms env r t q =
        with_user_keeps Q lasting r.user t _ q (λ user. q)
    handler_of_keeps Endpoint.create_room env r t q = create_keeps Q lasting p env r t q
    handler_of_keeps Endpoint.join_room env r t q = join_keeps Q lasting p env r t q
    handler_of_keeps Endpoint.leave_room env r t q = leave_keeps Q lasting p env r t q
    handler_of_keeps Endpoint.room_messages env r t q = room_history_keeps Q lasting p env r t q
    handler_of_keeps Endpoint.dms env r t q = dm_history_keeps Q lasting p env r t q
    handler_of_keeps Endpoint.uploads env r t q = with_user_keeps Q lasting r.user t _ q (λ user. q)

    if_allowed_keeps :
        (v : Verdict) (x : Endpoint) (env : Env) (r : Request) (t : Tables)
        → Q t
        → Q (if_allowed p deps.auth.jwt_secret v (handler_of p deps match x) env r t).0
    if_allowed_keeps (Verdict.denied reason) x env r t q = q
    if_allowed_keeps (Verdict.allowed user) x env r t q =
        handler_of_keeps x env (record r { user = some user }) t q

    serve_route_keeps :
        (x : Route) (env : Env) (r : Request) (t : Tables)
        → Q t
        → Q (serve_route p deps match x env r t).0
    unfolding serve_route require
    serve_route_keeps x env r t q = elim (Bool-cases x.guarded) [
      | inl e ↦ rw e (
          if_allowed_keeps (authenticate p deps.auth.jwt_secret env r t) x.endpoint
            (record env { call = λ n. env.call (n + 1) }) r t q)
      | inr e ↦ rw e (handler_of_keeps x.endpoint env r t q)
    ]

    pub serve_keeps :
        (env : Env) (r : Request) (t t' : Tables) (response : Response)
        → Q t
        → serve p deps match env r t ≡ some (t', response)
        → Q t'
    unfolding serve
    serve_keeps env r t t' response q h = elim (Option-cases (find_route p deps match r routes)) [
      | inl e ↦ absurd (ground arith)
      | inr ((x, params), e) ↦
          let answer =
            serve_route p deps match x env (record r { params = params; user = none }) t in
          let same : answer ≡ (t', response) = ground arith in
          rw same at (serve_route_keeps x env (record r { params = params; user = none }) t q)
    ]
