-- ===== src/Http/Token/Known.antt =====
-- Who is let in by internal/http/middleware/auth.go.
use livechat_server.Base.{
  ◌≡◌, refl, sym, ◌∙◌, Bool, true, List, [], ◌∷◌, map, Text, some, arith, Bool-cases, Option-cases,
  inl, inr, text_eq, text_eq_iff, is_nil,
}
use livechat_server.Strings.{Unicode}
use livechat_server.Store.Models.{Uuid, User}
use livechat_server.Store.Queries.{Call, Outcome, ok, not_found, failed, any, find_first, query}
use livechat_server.Store.Rows.{Tables, UserRow, has_user}
use livechat_server.Store.Users.{get_user_by_id}
use livechat_server.Http.Types.{Packages, Env, Request}
use livechat_server.Http.Token.{
  authenticate, authenticate_socket, middleware_extract_token, parse_token, verify, of_user,
  allowed, extract_token,
}

find_user-any :
    (q : User → Bool) (l : List UserRow) (x : User)
    → find_first q (map (λ r. r.user) l) ≡ some x
    → (any (λ r. q r.user) l ≡ true) × (q x ≡ true)
unfolding find_first any
find_user-any q [] x h = absurd (ground arith)
find_user-any q (y ∷ l) x h = elim (Bool-cases (q y.user)) [
  | inl e ↦ (ground arith, ground arith)
  | inr e ↦ let (a, b) = find_user-any q l x (ground arith) in (ground arith, b)
]

got_user :
    (k : Call) (id : Uuid) (t : Tables) (user : User)
    → get_user_by_id k id t ≡ ok user
    → has_user user.id t ≡ true
unfolding get_user_by_id query
got_user k id t user h =
    elim (Option-cases (find_first (λ u. text_eq u.id id) (map (λ r. r.user) t.users))) [
      | inl e ↦ absurd (ground arith)
      | inr (x, e) ↦
          let (some_row, same) = find_user-any (λ u. text_eq u.id id) t.users x e in
          let is_x : x ≡ user = ground arith in rw (← is_x, (text_eq_iff x.id id).0 same) some_row
    ]

of_user-allowed : (o : Outcome User) (user : User) → of_user o ≡ allowed user → o ≡ ok user
of_user-allowed (ok x) user h = ground arith
of_user-allowed not_found user h = absurd (ground arith)
of_user-allowed failed user h = absurd (ground arith)

verified :
    (p : Packages) (secret : Text) (env : Env) (token : Text) (t : Tables) (user : User)
    → verify p secret env token t ≡ allowed user
    → has_user user.id t ≡ true
unfolding verify
verified p secret env token t user h = elim (Option-cases (parse_token p env.now token secret)) [
  | inl e ↦ absurd (ground arith)
  | inr (claims, e) ↦ elim (Option-cases (p.parse_uuid claims.user_id)) [
    | inl f ↦ absurd (ground arith)
    | inr (id, f) ↦
        got_user (env.call 0) id t user
          (of_user-allowed (get_user_by_id (env.call 0) id t) user (ground arith))
  ]
]

-- Who is let in is a user of the tables.
authenticated :
    ⦃u : Unicode⦄
    → (p : Packages) (secret : Text) (env : Env) (r : Request) (t : Tables) (user : User)
    → authenticate p secret env r t ≡ allowed user
    → has_user user.id t ≡ true
unfolding authenticate
authenticated p secret env r t user h = elim (Bool-cases (is_nil (extract_token r))) [
  | inl e ↦ absurd (ground arith)
  | inr e ↦ verified p secret env (extract_token r) t user (ground arith)
]

-- ServeWS lets in whom Require lets in.
pub authenticate_socket_same :
    ⦃u : Unicode⦄
    → (p : Packages) (secret : Text) (env : Env) (r : Request) (t : Tables)
    → authenticate_socket p secret env r t ≡ authenticate p secret env r t
unfolding authenticate_socket authenticate middleware_extract_token extract_token
authenticate_socket_same p secret env r t = refl

pub authenticated_socket :
    ⦃u : Unicode⦄
    → (p : Packages) (secret : Text) (env : Env) (r : Request) (t : Tables) (user : User)
    → authenticate_socket p secret env r t ≡ allowed user
    → has_user user.id t ≡ true
authenticated_socket p secret env r t user h =
    authenticated p secret env r t user (sym (authenticate_socket_same p secret env r t) ∙ h)
