-- ===== src/Http/Users/Sessions.antt =====
-- What the token of a new account is good for: internal/http/middleware/auth.go behind
-- internal/http/handlers/auth.go, with internal/auth/auth.go.
use livechat_server.Base.{
  ◌+◌, ◌≤◌, ◌≡◌, refl, ap, Bool, true, false, ◌&&◌, List, [], ◌∷◌, ◌++◌, map, Text, codes, some,
  arith, text_eq, text_eq_iff,
}
use livechat_server.Strings.{Unicode, trim_space, to_lower, drop_bytes, byte_len}
use livechat_server.Store.Models.{User}
use livechat_server.Store.Queries.{Call, ok, query, find_first, any, or_not_found}
use livechat_server.Store.Rows.{UserRow, Tables, same_user}
use livechat_server.Store.Unique.{any_imp}
use livechat_server.Strings.Words.{drop_bytes-append}
use livechat_server.Store.Users.{get_user_by_id}
use livechat_server.Http.Types.{Request, Packages, Env, Payload, respond, seconds}
use livechat_server.Http.Token.{
  new_token, require, authenticate, extract_token, parse_token, verify, has_prefix, add_duration,
  Verdict,
}
use livechat_server.Http.Users.{AuthHandler, register, token_for, me, time_seconds_to_duration}
use livechat_server.Http.Users.Registered.{AreFaithful, registered}

find_user_last :
    (q : User → Bool) (l : List UserRow) (x : UserRow)
    → any (λ r. q r.user) l ≡ false
    → q x.user ≡ true
    → find_first q (map (λ r. r.user) (l ++ x ∷ [])) ≡ some x.user
unfolding find_first any
find_user_last q [] x n h = rw h
find_user_last q (y ∷ l) x n h = ground (arith, find_user_last q l x)

module _ ⦃u : Unicode⦄ where
  bearer_prefix :
      (token : Text) → has_prefix (to_lower (codes "Bearer " ++ token)) (codes "bearer ") ≡ true
  unfolding has_prefix to_lower
  bearer_prefix token = rw (
    u.ascii_to_lower b'B' refl,
    u.ascii_to_lower b'e' refl,
    u.ascii_to_lower b'a' refl,
    u.ascii_to_lower b'r' refl,
    u.ascii_to_lower 32 refl,
  )

  bearer_dropped : (token : Text) → drop_bytes 7 (codes "Bearer " ++ token) ≡ token
  unfolding byte_len
  bearer_dropped token = drop_bytes-append (codes "Bearer ") token

  bearer_token :
      (r : Request) (token : Text)
      → r.authorization ≡ codes "Bearer " ++ token
      → trim_space token ≡ token
      → extract_token r ≡ token
  unfolding extract_token
  bearer_token r token e trimmed = rw (e, bearer_prefix token, bearer_dropped token, trimmed)

  -- A token of a registered user is allowed as that user.
  token_allowed :
      (p : Packages) (h : AuthHandler) (env env' : Env) (r : Request) (user : User) (token : Text)
      (t : Tables)
      → AreFaithful p
      → token_for p h env user ≡ some token
      → r.authorization ≡ codes "Bearer " ++ token
      → env'.now + seconds 1 ≤ add_duration env.now (time_seconds_to_duration h.token_ttl)
      → get_user_by_id (env'.call 0) user.id t ≡ ok user
      → authenticate p h.jwt_secret env' r t ≡ Verdict.allowed user
  unfolding authenticate verify new_token parse_token
  token_allowed p h env env' r user token t f signed e soon found =
      let (claims, parsed, same) = f.parse-sign _ h.jwt_secret token env'.now signed soon in
      rw (bearer_token r token e (f.trim-sign _ h.jwt_secret token signed)) (
        rw (
          f.sign_filled _ h.jwt_secret token signed,
          verify,
          parsed,
          same,
          f.parse-uuid_string user.id,
          found,
        ))

find_user_id :
    (k : Call) (user : User) (hash : Text) (t : Tables)
    → any (same_user (record { user = user; password_hash = hash })) t.users ≡ false
    → (k.reached && k.answered) ≡ true
    → get_user_by_id k user.id
        (record t { users = t.users ++ (record { user = user; password_hash = hash }) ∷ [] })
      ≡ ok user
unfolding get_user_by_id query
find_user_id k user hash t fresh up = rw up (
    ap or_not_found (
      find_user_last (λ x. text_eq x.id user.id) t.users
        (record { user = user; password_hash = hash })
        (any_imp (λ x. text_eq x.user.id user.id)
          (same_user (record { user = user; password_hash = hash })) t.users
          (λ x e. ground (arith, text_eq_iff x.user.id user.id, text_eq_iff user.id x.user.id))
          fresh)
        (ground (arith, text_eq_iff user.id user.id))))

-- With faithful packages the token that a successful registration answers with is accepted by Require
-- while it has a second left and the store answers, and Me tells the registered user.
pub register-me :
    ⦃u : Unicode⦄
    → (p : Packages) (h : AuthHandler) (env env' : Env) (r r' : Request) (t t' : Tables)
      (token : Text) (user : User)
    → AreFaithful p
    → register p h env r t ≡ (t', respond 201 (Payload.session token user))
    → r'.authorization ≡ codes "Bearer " ++ token
    → env'.now + seconds 1 ≤ add_duration env.now (time_seconds_to_duration h.token_ttl)
    → ((env'.call 0).reached && (env'.call 0).answered) ≡ true
    → require p h.jwt_secret me env' r' t' ≡ (t', respond 200 (Payload.user user))
unfolding require me
register-me p h env env' r r' t t' token user f e bearer soon up =
    let g = registered p h env r t t' token user e in
    let found : get_user_by_id (env'.call 0) user.id t' ≡ ok user =
      rw g.stored (find_user_id (env'.call 0) user g.hash t g.fresh up) in
    rw (token_allowed p h env env' r' user token t' f g.signed bearer soon found)
