-- ===== src/Tests/Http.antt =====
-- Requests to internal/http over the tables of internal/store.
use livechat_server.Base.{
  ◌⊎◌, ℕ, ◌+◌, ◌≡◌, refl, true, [], ◌∷◌, ◌++◌, Text, none, codes, text_eq, pos, lookup, arith,
}
use livechat_server.Strings.{is_space, trim_left, trim_right, trim_space, to_lower, byte_len}
use livechat_server.Strings.Ascii.{ascii}
use livechat_server.Store.Models.{User}
use livechat_server.Store.Queries.{statement, any}
use livechat_server.Store.Rows.{Tables, UserRow}
use livechat_server.Store.Users.{create_user, insert_user}
use livechat_server.Store.Histories.{no_rows}
use livechat_server.Http.Types.{Request, Payload, Upload, Env, respond, respond_error}
use livechat_server.Http.Token.{require, new_token}
use livechat_server.Http.Users.{
  AuthHandler, register, register_account, after_create, respond_session, token_for, login, me,
  is_too_short,
}
use livechat_server.Http.Users.Sessions.{register-me}
use livechat_server.Http.Users.Logins.{register-login, login_shadowed}
use livechat_server.Tests.Store.{call, dialect}
use livechat_server.Tests.Packages.{
  packages, packages-AreFaithful, hashed_is, token_of, registration, credentials,
}

abbrev pub auth : AuthHandler
auth = record { jwt_secret = codes "s"; token_ttl = pos 0 }

abbrev pub upload : Upload
upload = record {
  has_dir = true;
  form = λ limit. none;
  id = 9 ∷ [];
  can_create = true;
  can_write = true;
}

-- What comes with a request at an instant; the first id that it makes is `id`.
abbrev pub env : ℕ → ℕ → Env
env id now = record { call = λ n. call (id + n) now true; now = now; salt = []; upload = upload }

abbrev pub request : Text → Text → Request
request authorization body = record {
  method = codes "POST";
  path = [];
  authorization = authorization;
  query = [];
  body = body;
  params = [];
  user = none;
}

abbrev pub ann : User
ann = record {
  id = 10 ∷ [];
  email = codes "ann@x";
  username = codes "ann";
  avatar_url = [];
  created_at = 5;
}

abbrev pub eve : User
eve = record {
  id = 20 ∷ [];
  email = codes "Ann@x";
  username = codes "eve";
  avatar_url = [];
  created_at = 6;
}

-- The token of a user that registers at an instant.
abbrev pub token : User → ℕ → Text
token user now = token_of (record {
  user_id = user.id;
  username = user.username;
  expires_at = now + 86400000000000;
  issued_at = now;
})

abbrev row : User → UserRow
row user = record { user = user; password_hash = 0 ∷ (codes "secret" ++ user.username) }

-- The tables once ann has registered, and eve after her.
abbrev pub with_ann : Tables
with_ann = record no_rows { users = row ann ∷ [] }

abbrev with_both : Tables
with_both = record no_rows { users = row ann ∷ row eve ∷ [] }

ann_registered :
    register packages auth (env 10 5) (request [] (codes "1")) no_rows
    ≡ (with_ann, respond 201 (Payload.session (token ann 5) ann))
unfolding register register_account after_create respond_session create_user insert_user statement
    any lookup text_eq trim_space trim_left trim_right is_space byte_len new_token
    livechat_server.Http.Users.time_seconds_to_duration
ann_registered = refl

eve_registered :
    register packages auth (env 20 6) (request [] (codes "2")) with_ann
    ≡ (with_both, respond 201 (Payload.session (token eve 6) eve))
unfolding register register_account after_create respond_session create_user insert_user statement
    any lookup text_eq trim_space trim_left trim_right is_space byte_len new_token
    livechat_server.Http.Users.time_seconds_to_duration
eve_registered = refl

register-me_example :
    require ⦃u = ascii⦄ packages
      (codes "s")
      me
      (env 30 7)
      (request (codes "Bearer " ++ token ann 5) [])
      with_ann
    ≡ (with_ann, respond 200 (Payload.user ann))
unfolding livechat_server.Http.Users.time_seconds_to_duration
register-me_example =
    register-me ⦃u = ascii⦄ packages auth (env 10 5) (env 30 7) (request [] (codes "1"))
      (request (codes "Bearer " ++ token ann 5) []) no_rows with_ann (token ann 5) ann
      packages-AreFaithful ann_registered refl (omega arith) refl

register-login_example :
    login packages auth dialect (env 30 7) (request [] (codes "1")) with_ann
    ≡ (with_ann, respond 200 (Payload.session (token ann 7) ann))
unfolding respond_session new_token livechat_server.Http.Users.time_seconds_to_duration any lookup
    text_eq trim_space trim_left trim_right is_space
register-login_example =
    register-login packages auth dialect (env 10 5) (env 30 7) (request [] (codes "1"))
      (request [] (codes "1")) no_rows with_ann (token ann 5) ann
      (registration (codes "ann@x") (codes "ann"))
      (credentials (codes " ann@x") (codes "secretann")) packages-AreFaithful ann_registered refl
      refl refl refl refl refl

-- ann and eve, each with the own address and password.
login_shadowed_example :
    (login packages auth dialect (env 30 7) (request [] (codes "1")) with_both
      ≡ (with_both, respond_error 401 (codes "invalid credentials")))
    ⊎ (login packages auth dialect (env 30 7) (request [] (codes "2")) with_both
        ≡ (with_both, respond_error 401 (codes "invalid credentials")))
unfolding any lookup text_eq trim_space trim_left trim_right is_space to_lower
login_shadowed_example =
    login_shadowed packages auth dialect (env 10 5) (env 20 6) (env 30 7) (request [] (codes "1"))
      (request [] (codes "2")) (request [] (codes "1")) (request [] (codes "2")) no_rows with_ann
      with_both (token ann 5) (token eve 6) ann eve (registration (codes "ann@x") (codes "ann"))
      (registration (codes "Ann@x") (codes "eve"))
      (credentials (codes " ann@x") (codes "secretann"))
      (credentials (codes "Ann@x") (codes "secreteve")) ann_registered eve_registered refl refl refl
      refl refl refl refl refl (λ hash e. rw (← hashed_is [] (codes "secretann") hash e) refl)
      (λ hash e. rw (← hashed_is [] (codes "secreteve") hash e) refl) refl
