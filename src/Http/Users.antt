-- ===== src/Http/Users.antt =====
-- internal/http/handlers/auth.go and users.go.
pub mod Registered
pub mod Sessions
pub mod Logins
use livechat_server.Base.{
  ℕ, Bool, true, false, ◌||◌, Text, codes, Option, none, some, is_nil, if◌then◌else◌, ltb, ℤ, pos,
  is_nonpos, List,
}
use livechat_server.Strings.{Unicode, trim_space, byte_len}
use livechat_server.Strings.Decimal.{atoi}
use livechat_server.Store.Models.{User}
use livechat_server.Store.Queries.{Outcome, ok, not_found, failed, Dialect}
use livechat_server.Store.Rows.{Tables}
use livechat_server.Store.Users.{create_user, get_user_by_email, search_users}
use livechat_server.Http.Types.{
  Request, Response, user_from_context, RegisterRequest, LoginRequest, Packages, Env, Handler,
  Payload, respond, respond_error, get_param,
}
use livechat_server.Http.Token.{new_token}

pub record AuthHandler : Type 0 where
  pub jwt_secret : Text
  pub token_ttl : ℤ

-- A duration that is not positive stands for 24 hours.
unfoldable pub time_seconds_to_duration : ℤ → ℤ
time_seconds_to_duration d = if is_nonpos d then pos 86400000000000 else d

-- The end of Register and of Login: a token for the user.
unfoldable pub respond_session : ℕ → User → Option Text → Response
respond_session code user none = respond_error 500 (codes "could not sign token")
respond_session code user (some token) = respond code (Payload.session token user)

module _ (p : Packages) (h : AuthHandler) where
  abbrev pub token_for : Env → User → Option Text
  token_for env user =
      new_token p env.now user.id user.username h.jwt_secret (time_seconds_to_duration h.token_ttl)

  -- Register behind CreateUser.
  unfoldable pub after_create : Env → Tables × Outcome User → Tables × Response
  after_create env (t, ok user) = (t, respond_session 201 user (token_for env user))
  after_create env (t, not_found) = (t, respond_error 409 (codes "user already exists"))
  after_create env (t, failed) = (t, respond_error 409 (codes "user already exists"))

  -- The test of Register, on lengths in bytes.
  abbrev pub is_too_short : RegisterRequest → Bool
  is_too_short req =
      ltb (byte_len req.password) 6 || ltb (byte_len req.username) 3 || ltb (byte_len req.email) 5

  unfoldable pub register_account : RegisterRequest → Env → Tables → Tables × Response
  register_account req env t = elim (p.hash_password env.salt req.password) [
    | none ↦ (t, respond_error 500 (codes "could not create user"))
    | some hash ↦ after_create env (
        create_user (env.call 0) (trim_space req.email) (trim_space req.username) hash
          (trim_space req.avatar) t)
  ]

  unfoldable pub register : Handler
  register env r t = elim (p.decode_register r.body) [
    | none ↦ (t, respond_error 400 (codes "invalid payload"))
    | some req ↦
        if is_too_short req
        then (t, respond_error 400 (codes "invalid credentials"))
        else register_account req env t
  ]

  -- Login behind GetUserByEmail.
  unfoldable pub check_password : Env → LoginRequest → Outcome (User × Text) → Response
  check_password env req (ok (user, password_hash)) =
      if p.is_password password_hash req.password
      then respond_session 200 user (token_for env user)
      else respond_error 401 (codes "invalid credentials")
  check_password env req not_found = respond_error 401 (codes "invalid credentials")
  check_password env req failed = respond_error 401 (codes "invalid credentials")

  unfoldable pub login : Dialect → Handler
  login d env r t = elim (p.decode_login r.body) [
    | none ↦ (t, respond_error 400 (codes "invalid payload"))
    | some req ↦
        (t, check_password env req (get_user_by_email (env.call 0) d (trim_space req.email) t))
  ]

-- What a handler does with the user of the context.
abbrev pub with_user : Option User → Tables → (User → Tables × Response) → Tables × Response
with_user none t next = (t, respond_error 401 (codes "unauthorized"))
with_user (some user) t next = next user

unfoldable pub me : Handler
me env r t = with_user (user_from_context r) t (λ user. (t, respond 200 (Payload.user user)))

-- A limit that is missing or no number stands for the default.
unfoldable pub limit_param : ℤ → Text → ℤ
limit_param default raw =
    if is_nil raw then default else elim (atoi raw) [ none ↦ default | some n ↦ n ]

abbrev pub respond_users : Outcome (List User) → Response
respond_users (ok l) = respond 200 (Payload.users l)
respond_users not_found = respond_error 500 (codes "failed to load users")
respond_users failed = respond_error 500 (codes "failed to load users")

unfoldable pub search : Dialect → Handler
search d env r t = (
  t,
  respond_users (
      search_users (env.call 0) d (trim_space (get_param (codes "query") r.query))
        (limit_param (pos 20) (get_param (codes "limit") r.query)) t),
)
