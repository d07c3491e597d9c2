-- ===== src/Http/Router/Guard.antt =====
-- What stands before the handlers of internal/http/router.go.
use livechat_server.Base.{
  ◌≡◌, refl, Bool, true, false, not, List, [], ◌∷◌, Text, Option, none, some, StrMap, All, arith,
  text_eq, Option-cases, Bool-cases, inl, inr, ◌+◌, ◌∙◌,
}
use livechat_server.Strings.{Unicode}
use livechat_server.Store.Rows.{Tables}
use livechat_server.Http.Types.{Request, Packages, Env, respond, Payload}
use livechat_server.Http.Token.{require, authenticate, extract_token, Verdict}
use livechat_server.Http.Router.{
  Endpoint, Route, RouterDeps, health, register_user, log_in, routes, find_route, serve_route,
  serve, handler_of,
}

-- What anybody may ask for.
abbrev pub is_public : Endpoint → Bool
is_public health = true
is_public register_user = true
is_public log_in = true
is_public _ = false

abbrev IsGuarded : Route → Type 0
IsGuarded x = x.guarded ≡ not (is_public x.endpoint)

routes-IsGuarded : All IsGuarded routes
unfolding routes
routes-IsGuarded = ground arith

module _ ⦃u : Unicode⦄ (p : Packages) (deps : RouterDeps)
    (match : Text → Text → Option (StrMap Text)) where
  find_route-All :
      (r : Request) (l : List Route) (x : Route) (params : StrMap Text)
      → All IsGuarded l
      → find_route p deps match r l ≡ some (x, params)
      → IsGuarded x
  unfolding find_route
  find_route-All r [] x params h e = cc
  find_route-All r (y ∷ l) x params h e = elim (Option-cases (match y.pattern r.path)) [
    | inl f ↦ find_route-All r l x params h.1 (ground arith)
    | inr (m, f) ↦ elim (Bool-cases (text_eq y.method r.method)) [
      | inl g ↦ ground arith
      | inr g ↦ find_route-All r l x params h.1 (ground arith)
    ]
  ]

  -- The verdict depends on the header and the query alone.
  verdict_same :
      (env : Env) (r : Request) (t : Tables) (params : StrMap Text)
      → authenticate p deps.auth.jwt_secret env (record r { params = params; user = none }) t
        ≡ authenticate p deps.auth.jwt_secret env r t
  unfolding authenticate extract_token
  verdict_same env r t params = refl

  -- On a route that is not public the token is looked at before all else: a request that is denied is
  -- answered by 401 with the reason and changes nothing, and any other one is handled for the token's
  -- user.
  pub serve_guarded :
      (env : Env) (r : Request) (t : Tables) (x : Route) (params : StrMap Text)
      → find_route p deps match r routes ≡ some (x, params)
      → is_public x.endpoint ≡ false
      → serve p deps match env r t
        ≡ some (elim (authenticate p deps.auth.jwt_secret env r t) [
          | Verdict.denied reason ↦ (t, respond 401 (Payload.plain reason))
          | Verdict.allowed user ↦
              handler_of p deps match x.endpoint
                (record env { call = λ n. env.call (n + 1) })
                (record r { params = params; user = some user })
                t
        ])
  unfolding serve serve_route require
  serve_guarded env r t x params found private =
      let kept : x.guarded ≡ true =
        find_route-All r routes x params routes-IsGuarded found ∙ rw private in
      ground (arith, verdict_same env r t params)
