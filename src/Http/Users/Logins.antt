-- ===== src/Http/Users/Logins.antt =====
-- Who logs in: `Login` of internal/http/handlers/auth.go over internal/store/store.go.
use livechat_server.Base.{
  ℕ, zero, suc, ◌≡◌, refl, ◌∙◌, ap, ◌⊎◌, inl, inr, Bool, true, false, ◌&&◌, List, [], ◌∷◌, ◌++◌,
  keep_if, Text, codes, some, arith, text_eq, text_eq_iff,
}
use livechat_server.Strings.{trim_space}
use livechat_server.Store.Models.{User}
use livechat_server.Store.Queries.{Call, ok, Dialect, query, pick, any}
use livechat_server.Store.Rows.{UserRow, Tables}
use livechat_server.Store.Unique.{keep_if_none}
use livechat_server.Store.Users.{get_user_by_email}
use livechat_server.Http.Types.{
  Request, RegisterRequest, LoginRequest, Packages, Env, Payload, respond, respond_error,
}
use livechat_server.Http.Users.{
  AuthHandler, register, respond_session, token_for, login, check_password,
}
use livechat_server.Http.Users.Registered.{AreFaithful, IsRegistered, registered}

abbrev has_email : Dialect → Text → UserRow → Bool
has_email d text x = text_eq (d.lower x.user.email) (d.lower text)

keep_if-append :
    (p : UserRow → Bool) (l m : List UserRow) → keep_if p (l ++ m) ≡ keep_if p l ++ keep_if p m
unfolding keep_if
keep_if-append p [] m = refl
keep_if-append p (x ∷ l) m = ground (arith, keep_if-append p l m)

kept_one : (p : UserRow → Bool) (x : UserRow) → p x ≡ true → keep_if p (x ∷ []) ≡ x ∷ []
unfolding keep_if
kept_one p x h = rw h

find_email :
    (k : Call) (d : Dialect) (text : Text) (row : UserRow) (t : Tables)
    → pick k.choice (keep_if (has_email d text) t.users) ≡ some row
    → (k.reached && k.answered) ≡ true
    → get_user_by_email k d text t ≡ ok (row.user, row.password_hash)
unfolding get_user_by_email query
find_email k d text row t found up = rw (up, found)

only : (n : ℕ) (x : UserRow) → pick n (x ∷ []) ≡ some x
unfolding pick
only zero x = refl
only (suc n) x = refl

-- The row of a registered user is the only one with its address where no older account has it.
registered_email :
    (p : Packages) (h : AuthHandler) (d : Dialect) (env : Env) (r : Request) (t t' : Tables)
    (token : Text) (user : User) (g : IsRegistered p h env r t t' token user)
    → any (λ x. text_eq (d.lower x.user.email) (d.lower user.email)) t.users ≡ false
    → keep_if (has_email d user.email) t'.users
      ≡ (record { user = user; password_hash = g.hash }) ∷ []
registered_email p h d env r t t' token user g alone =
    let row : UserRow = record { user = user; password_hash = g.hash } in
    rw g.stored (
      keep_if-append (has_email d user.email) t.users (row ∷ [])
      ∙ rw (keep_if_none (has_email d user.email) t.users alone) (
          kept_one (has_email d user.email) row
            ((text_eq_iff (d.lower user.email) (d.lower user.email)).1 refl)))

-- With faithful packages, a user who has registered and whose address lower() takes to that of no
-- older account logs in with the address and the password of the registration while the store
-- answers, and gets a token of the same user, or an error if it cannot be signed.
pub register-login :
    (p : Packages) (h : AuthHandler) (d : Dialect) (env env' : Env) (r r' : Request) (t t' : Tables)
    (token : Text) (user : User) (given : RegisterRequest) (req : LoginRequest)
    → AreFaithful p
    → register p h env r t ≡ (t', respond 201 (Payload.session token user))
    → p.decode_register r.body ≡ some given
    → p.decode_login r'.body ≡ some req
    → trim_space req.email ≡ trim_space given.email
    → req.password ≡ given.password
    → any (λ x. text_eq (d.lower x.user.email) (d.lower user.email)) t.users ≡ false
    → ((env'.call 0).reached && (env'.call 0).answered) ≡ true
    → login p h d env' r' t' ≡ (t', respond_session 200 user (token_for p h env' user))
unfolding login check_password
register-login p h d env env' r r' t t' token user given req f e sent decoded email password alone
      up =
    let g = registered p h env r t t' token user e in
    let same_req : g.req ≡ given = ground (arith, g.decoded) in
    let same_email : trim_space req.email ≡ user.email = ground (arith, g.email) in
    let found : get_user_by_email (env'.call 0) d (trim_space req.email) t' ≡ ok (user, g.hash) =
      rw same_email (
        find_email (env'.call 0) d user.email (record { user = user; password_hash = g.hash }) t'
          (rw (registered_email p h d env r t t' token user g alone) (only (env'.call 0).choice _))
          up) in
    let accepted : p.is_password g.hash req.password ≡ true =
      rw (password, ← same_req) (f.is_password-hash env.salt g.req.password g.hash g.hashed) in
    rw (decoded, login, found, check_password, accepted)

pick_two : (n : ℕ) (a b : UserRow) → (pick n (a ∷ b ∷ []) ≡ some a) ⊎ (pick n (a ∷ b ∷ []) ≡ some b)
unfolding pick
pick_two zero a b = inl refl
pick_two (suc n) a b = inr refl

-- Two accounts may register whose addresses differ only as lower() takes both to one. Whichever of
-- their rows the database gives for such an address, one of the two is refused with its own address
-- and password, where neither's hash accepts the password of the other, while the store answers.
pub login_shadowed :
    (p : Packages) (h : AuthHandler) (d : Dialect) (env env' env'' : Env) (r r' s s' : Request)
    (t t' t'' : Tables) (token token' : Text) (older newer : User) (given given' : RegisterRequest)
    (req req' : LoginRequest)
    → register p h env r t ≡ (t', respond 201 (Payload.session token older))
    → register p h env' r' t' ≡ (t'', respond 201 (Payload.session token' newer))
    → any (λ x. text_eq (d.lower x.user.email) (d.lower older.email)) t.users ≡ false
    → d.lower newer.email ≡ d.lower older.email
    → p.decode_register r.body ≡ some given
    → p.decode_register r'.body ≡ some given'
    → p.decode_login s.body ≡ some req
    → p.decode_login s'.body ≡ some req'
    → trim_space req.email ≡ older.email
    → trim_space req'.email ≡ newer.email
    → ((hash : Text)
        → p.hash_password env.salt given.password ≡ some hash
        → p.is_password hash req'.password ≡ false)
    → ((hash : Text)
        → p.hash_password env'.salt given'.password ≡ some hash
        → p.is_password hash req.password ≡ false)
    → ((env''.call 0).reached && (env''.call 0).answered) ≡ true
    → (login p h d env'' s t'' ≡ (t'', respond_error 401 (codes "invalid credentials")))
      ⊎ (login p h d env'' s' t'' ≡ (t'', respond_error 401 (codes "invalid credentials")))
unfolding login check_password
login_shadowed p h d env env' env'' r r' s s' t t' t'' token token' older newer given given' req
      req' e e' alone same sent sent' decoded decoded' email email' wrong wrong' up =
    let g = registered p h env r t t' token older e in
    let g' = registered p h env' r' t' t'' token' newer e' in
    let k : Call = env''.call 0 in
    let row : UserRow = record { user = older; password_hash = g.hash } in
    let row' : UserRow = record { user = newer; password_hash = g'.hash } in
    let both : keep_if (has_email d older.email) t''.users ≡ row ∷ row' ∷ [] = rw g'.stored (
      keep_if-append (has_email d older.email) t'.users (row' ∷ [])
      ∙ rw (registered_email p h d env r t t' token older g alone) (
          ap (λ l. row ∷ l)
            (kept_one (has_email d older.email) row'
              ((text_eq_iff (d.lower newer.email) (d.lower older.email)).1 same)))) in
    let hashed : p.hash_password env.salt given.password ≡ some g.hash =
      ground (arith, g.hashed, g.decoded) in
    let hashed' : p.hash_password env'.salt given'.password ≡ some g'.hash =
      ground (arith, g'.hashed, g'.decoded) in
    let same_rows : keep_if (has_email d newer.email) t''.users
        ≡ keep_if (has_email d older.email) t''.users =
      ap (λ (x : Text). keep_if (λ (r : UserRow). text_eq (d.lower r.user.email) x) t''.users)
        same in
    elim (pick_two k.choice row row') [
      | inl c ↦
          let found : get_user_by_email k d (trim_space req'.email) t'' ≡ ok (older, g.hash) =
            find_email k d (trim_space req'.email) row t'' (rw (email', same_rows, both) c) up in
          inr (rw (decoded', login, found, check_password, wrong g.hash hashed))
      | inr c ↦
          let found : get_user_by_email k d (trim_space req.email) t'' ≡ ok (newer, g'.hash) =
            find_email k d (trim_space req.email) row' t'' (rw (email, both) c) up in
          inl (rw (decoded, login, found, check_password, wrong' g'.hash hashed'))
    ]
