-- ===== src/Http/Router/Access.antt =====
-- What the router of internal/http/router.go asks of a request for a route of the API. Of
-- its other routes, /ws looks at the token itself, and the files under /uploads/ are served without one.
use livechat_server.Base.{◌≡◌, false, Text, Option, none, some, StrMap, arith, ◌+◌}
use livechat_server.Strings.{Unicode}
use livechat_server.Store.Rows.{Tables}
use livechat_server.Http.Types.{Request, Response, Packages, Env, respond, Payload}
use livechat_server.Http.Token.{authenticate, Verdict}
use livechat_server.Http.Router.{Route, RouterDeps, routes, find_route, handler_of}
use livechat_server.Http.Router.Guard.{is_public, serve_guarded}
use livechat_server.Http.Router.Files.{CorsOptions, cors_options, answered, new_router}

-- A request that the CORS handler lets through to a route of the API other than health, register and
-- login: the router looks at the token before all else. A request that is denied is answered by 401
-- with the reason and changes nothing, and any other one is handled for the token's user.
pub new_router_guarded :
    ⦃u : Unicode⦄
    → (p : Packages) (deps : RouterDeps) (match : Text → Text → Option (StrMap Text))
      (cors : CorsOptions → Request → Option Response) (env : Env) (r : Request) (t : Tables)
      (x : Route) (params : StrMap Text)
    → cors (cors_options deps.cors_origins) r ≡ none
    → find_route p deps match r routes ≡ some (x, params)
    → is_public x.endpoint ≡ false
    → new_router p deps match cors env r t ≡ elim (authenticate p deps.auth.jwt_secret env r t) [
      | Verdict.denied reason ↦ answered t (respond 401 (Payload.plain reason))
      | Verdict.allowed user ↦
          let (t', response) =
            handler_of p deps match x.endpoint
              (record env { call = λ n. env.call (n + 1) })
              (record r { params = params; user = some user })
              t in
          answered t' response
    ]
unfolding new_router
new_router_guarded p deps match cors env r t x params passes found private =
    ground (arith, serve_guarded p deps match env r t x params found private)
