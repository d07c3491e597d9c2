-- ===== src/Http/Users/Registered.antt =====
-- What a registration has done: internal/http/handlers/auth.go over internal/store/store.go.
use livechat_server.Base.{
  ℕ, ◌+◌, ◌≤◌, ◌≡◌, true, false, [], ◌∷◌, ◌++◌, Text, Option, none, some, arith, Option-cases,
  Bool-cases, inl, inr, is_nil,
}
use livechat_server.Strings.{trim_space}
use livechat_server.Store.Models.{Uuid, User}
use livechat_server.Store.Queries.{Call, Outcome, ok, not_found, failed, statement, any}
use livechat_server.Store.Rows.{UserRow, Tables, same_user}
use livechat_server.Store.Users.{create_user, insert_user}
use livechat_server.Http.Types.{
  Request, RegisterRequest, Packages, Env, Claims, Payload, respond, seconds,
}
use livechat_server.Http.Users.{
  AuthHandler, register, register_account, after_create, respond_session, token_for, is_too_short,
}

-- What the packages document: a UUID is read back from its text, a signed token has no white space
-- round it, is not empty, and is read back as the claims of its user until a second before it
-- expires, and bcrypt accepts the password that it hashed.
pub record AreFaithful (p : Packages) : Type 0 where
  pub parse-uuid_string : (id : Uuid) → p.parse_uuid (p.uuid_string id) ≡ some id
  pub trim-sign :
      (c : Claims) (secret token : Text) → p.sign c secret ≡ some token → trim_space token ≡ token
  pub sign_filled :
      (c : Claims) (secret token : Text) → p.sign c secret ≡ some token → is_nil token ≡ false
  pub parse-sign :
      (c : Claims) (secret token : Text) (now : ℕ)
      → p.sign c secret ≡ some token
      → now + seconds 1 ≤ c.expires_at
      → (d : Claims) × (p.parse_with_claims now token secret
          ≡ some (record { claims = some d; valid = true }))
        × (d.user_id ≡ c.user_id)
  pub is_password-hash :
      (salt password hash : Text)
      → p.hash_password salt password ≡ some hash
      → p.is_password hash password ≡ true

-- What a successful registration has done.
pub record IsRegistered (p : Packages) (h : AuthHandler) (env : Env) (r : Request) (t t' : Tables)
    (token : Text) (user : User) : Type 0 where
  pub req : RegisterRequest
  pub hash : Text
  pub decoded : p.decode_register r.body ≡ some req
  pub hashed : p.hash_password env.salt req.password ≡ some hash
  pub email : user.email ≡ trim_space req.email
  pub fresh : any (same_user (record { user = user; password_hash = hash })) t.users ≡ false
  pub stored :
      t' ≡ record t { users = t.users ++ (record { user = user; password_hash = hash }) ∷ [] }
  pub signed : token_for p h env user ≡ some token

module _ (p : Packages) (h : AuthHandler) (env : Env) where
  respond_session-signed :
      (user user' : User) (o : Option Text) (token : Text)
      → respond_session 201 user o ≡ respond 201 (Payload.session token user')
      → (o ≡ some token) × (user ≡ user')
  unfolding respond_session
  respond_session-signed user user' none token e = ground arith
  respond_session-signed user user' (some s) token e = (ground arith, ground arith)

  created :
      (o : Tables × Outcome User) (t' : Tables) (token : Text) (user : User)
      → after_create p h env o ≡ (t', respond 201 (Payload.session token user))
      → (o ≡ (t', ok user)) × (token_for p h env user ≡ some token)
  unfolding after_create
  created (t, ok user') t' token user e =
      let (signed, same) =
        respond_session-signed user' user (token_for p h env user') token (ground arith) in
      (ground arith, ground arith)
  created (t, not_found) t' token user e = ground arith
  created (t, failed) t' token user e = ground arith

  inserted :
      (k : Call) (email name hash avatar : Text) (t t' : Tables) (user : User)
      → create_user k email name hash avatar t ≡ (t', ok user)
      → (user.email ≡ email)
        × (any (same_user (record { user = user; password_hash = hash })) t.users ≡ false)
        × (t' ≡ record t { users = t.users ++ (record { user = user; password_hash = hash }) ∷ [] })
  unfolding create_user statement insert_user
  inserted k email name hash avatar t t' user e = elim (Bool-cases (any (same_user row) t.users)) [
    | inl f ↦ absurd (ground arith)
    | inr f ↦ (ground arith, ground arith, ground arith)
  ]
    where
      row : UserRow
      row = record {
        user = record {
          id = k.id;
          email = email;
          username = name;
          avatar_url = avatar;
          created_at = k.now;
        };
        password_hash = hash;
      }

  pub registered :
      (r : Request) (t t' : Tables) (token : Text) (user : User)
      → register p h env r t ≡ (t', respond 201 (Payload.session token user))
      → IsRegistered p h env r t t' token user
  unfolding register register_account
  registered r t t' token user e = elim (Option-cases (p.decode_register r.body)) [
    | inl f ↦ absurd (ground arith)
    | inr (req, f) ↦ elim (Bool-cases (is_too_short p h req)) [
      | inl g ↦ absurd (ground arith)
      | inr g ↦ elim (Option-cases (p.hash_password env.salt req.password)) [
        | inl i ↦ absurd (ground arith)
        | inr (hash, i) ↦
            let (made, signed) =
              created
                (create_user (env.call 0) (trim_space req.email) (trim_space req.username) hash
                  (trim_space req.avatar) t)
                t' token user (ground arith) in
            let (email, fresh, stored) =
              inserted (env.call 0) (trim_space req.email) (trim_space req.username) hash
                (trim_space req.avatar) t t' user made in
            record {
              req = req;
              hash = hash;
              decoded = f;
              hashed = i;
              email = email;
              fresh = fresh;
              stored = stored;
              signed = signed;
            }
      ]
    ]
  ]
