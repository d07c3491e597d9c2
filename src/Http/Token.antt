-- ===== src/Http/Token.antt =====
-- internal/auth/auth.go and internal/http/middleware/auth.go.
pub mod Known
use livechat_server.Base.{
  ℕ, ◌+◌, ◌-◌, Bool, true, false, ◌&&◌, ◌==◌, [], ◌∷◌, Text, codes, Option, none, some, is_nil,
  if◌then◌else◌, ℤ, pos, negsuc,
}
use livechat_server.Strings.{Unicode, to_lower, trim_space, drop_bytes}
use livechat_server.Store.Models.{Uuid, User}
use livechat_server.Store.Queries.{Outcome, ok, not_found, failed}
use livechat_server.Store.Rows.{Tables}
use livechat_server.Store.Users.{get_user_by_id}
use livechat_server.Http.Types.{
  Request, Packages, Claims, Env, Handler, with_user, respond, get_param, plain,
}

-- `t.Add(d)`.
abbrev pub add_duration : ℕ → ℤ → ℕ
add_duration at (pos n) = at + n
add_duration at (negsuc n) = at - (n + 1)

unfoldable pub new_token : Packages → ℕ → Uuid → Text → Text → ℤ → Option Text
new_token p now user_id username secret ttl =
    p.sign
      (record {
        user_id = p.uuid_string user_id;
        username = username;
        expires_at = add_duration now ttl;
        issued_at = now;
      })
      secret

-- `strings.HasPrefix`.
unfoldable pub has_prefix : Text → Text → Bool
has_prefix s [] = true
has_prefix [] (d ∷ p) = false
has_prefix (c ∷ s) (d ∷ p) = c == d && has_prefix s p

-- Why a request is refused, or the user that it is from.
pub data Verdict : Type 0 where
  denied : Text → Verdict
  allowed : User → Verdict

module _ ⦃u : Unicode⦄ where
  unfoldable pub extract_token : Request → Text
  extract_token r =
      if has_prefix (to_lower r.authorization) (codes "bearer ")
      then trim_space (drop_bytes 7 r.authorization)
      else get_param (codes "token") r.query

  -- `middlewareExtractToken` of internal/ws/hub.go, which is the same function once more.
  unfoldable pub middleware_extract_token : Request → Text
  middleware_extract_token r =
      if has_prefix (to_lower r.authorization) (codes "bearer ")
      then trim_space (drop_bytes 7 r.authorization)
      else get_param (codes "token") r.query

abbrev pub of_user : Outcome User → Verdict
of_user (ok user) = allowed user
of_user not_found = denied (codes "user not found")
of_user failed = denied (codes "user not found")

unfoldable pub parse_token : Packages → ℕ → Text → Text → Option Claims
parse_token p now token secret = elim (p.parse_with_claims now token secret) [
  | none ↦ none
  | some parsed ↦ if parsed.valid then parsed.claims else none
]

unfoldable pub verify : Packages → Text → Env → Text → Tables → Verdict
verify p secret env token t = elim (parse_token p env.now token secret) [
  | none ↦ denied (codes "invalid token")
  | some claims ↦ elim (p.parse_uuid claims.user_id) [
    | none ↦ denied (codes "invalid token")
    | some id ↦ of_user (get_user_by_id (env.call 0) id t)
  ]
]

module _ ⦃u : Unicode⦄ (p : Packages) (secret : Text) where
  -- What Require and ServeWS look at before they go on.
  unfoldable pub authenticate : Env → Request → Tables → Verdict
  authenticate env r t =
      let token = extract_token r in
      if is_nil token then denied (codes "missing token") else verify p secret env token t

  -- What ServeWS looks at before it upgrades the request to a socket.
  unfoldable pub authenticate_socket : Env → Request → Tables → Verdict
  authenticate_socket env r t =
      let token = middleware_extract_token r in
      if is_nil token then denied (codes "missing token") else verify p secret env token t

  abbrev pub if_allowed : Verdict → Handler → Handler
  if_allowed (denied reason) next env r t = (t, respond 401 (plain reason))
  if_allowed (allowed user) next env r t = next env (with_user r user) t

  -- `Require`; the calls of the store that follow are the handler's.
  unfoldable pub require : Handler → Handler
  require next env r t =
      if_allowed (authenticate env r t) next (record env { call = λ n. env.call (n + 1) }) r t
