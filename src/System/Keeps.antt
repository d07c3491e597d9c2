-- ===== src/System/Keeps.antt =====
-- What every statement of internal/store keeps is kept by every handler of internal/http.
use livechat_server.Base.{
  ◌≡◌, refl, Text, Option, none, some, Option-cases, Bool-cases, inl, inr, codes, ltb,
}
use livechat_server.Strings.{trim_space, byte_len}
use livechat_server.Store.Models.{Uuid, User, Room}
use livechat_server.Store.Queries.{Call, Dialect, Outcome, ok, not_found, failed}
use livechat_server.Store.Rows.{Tables}
use livechat_server.Store.Users.{create_user}
use livechat_server.Store.Rooms.{create_room}
use livechat_server.Store.Histories.{Change, apply}
use livechat_server.Http.Types.{Request, Response, RegisterRequest, Packages, Env, get_param}
use livechat_server.Http.Users.{
  AuthHandler, register, register_account, after_create, login, is_too_short, with_user,
}
use livechat_server.Http.Rooms.{own_room, report, with_room}
use livechat_server.Http.Rooms as Handlers
use livechat_server.Http.Messages.{room_history, dm_history}

-- No statement ends it.
abbrev pub IsLasting : (Tables → Type 0) → Type 0
IsLasting Q = (k : Call) (c : Change) (t : Tables) → Q t → Q (apply k c t)

module _ (Q : Tables → Type 0) (lasting : IsLasting Q) where
  after_create-tables :
      (p : Packages) (h : AuthHandler) (env : Env) (o : Tables × Outcome User)
      → (after_create p h env o).0 ≡ o.0
  unfolding after_create
  after_create-tables p h env (t, ok user) = refl
  after_create-tables p h env (t, not_found) = refl
  after_create-tables p h env (t, failed) = refl

  create_user_keeps :
      (k : Call) (email name hash avatar : Text) (t : Tables)
      → Q t
      → Q (create_user k email name hash avatar t).0
  unfolding apply
  create_user_keeps k email name hash avatar t q =
      lasting k (Change.new_user email name hash avatar) t q

  register_account_keeps :
      (p : Packages) (h : AuthHandler) (req : RegisterRequest) (env : Env) (t : Tables)
      → Q t
      → Q (register_account p h req env t).0
  unfolding register_account
  register_account_keeps p h req env t q =
      elim (Option-cases (p.hash_password env.salt req.password)) [
        | inl e ↦ rw (e, register_account) q
        | inr (hash, e) ↦
            rw
              (
                e,
                register_account,
                after_create-tables p h env (
                    create_user (env.call 0) (trim_space req.email) (trim_space req.username) hash
                      (trim_space req.avatar) t),
              )
              (create_user_keeps (env.call 0) (trim_space req.email) (trim_space req.username) hash
                (trim_space req.avatar) t q)
      ]

  pub register_keeps :
      (p : Packages) (h : AuthHandler) (env : Env) (r : Request) (t : Tables)
      → Q t
      → Q (register p h env r t).0
  unfolding register
  register_keeps p h env r t q = elim (Option-cases (p.decode_register r.body)) [
    | inl e ↦ rw (e, register) q
    | inr (req, e) ↦ elim (Bool-cases (is_too_short p h req)) [
      | inl f ↦ rw (e, register, f) q
      | inr f ↦ rw (e, register, f) (register_account_keeps p h req env t q)
    ]
  ]

  pub login_keeps :
      (p : Packages) (h : AuthHandler) (d : Dialect) (env : Env) (r : Request) (t : Tables)
      → Q t
      → Q (login p h d env r t).0
  unfolding login
  login_keeps p h d env r t q = elim (Option-cases (p.decode_login r.body)) [
    | inl e ↦ rw (e, login) q
    | inr (req, e) ↦ rw (e, login) q
  ]

  pub with_user_keeps :
      (o : Option User) (t : Tables) (next : User → Tables × Response)
      → Q t
      → ((user : User) → Q (next user).0)
      → Q (with_user o t next).0
  with_user_keeps none t next q f = q
  with_user_keeps (some user) t next q f = f user

  with_room_keeps :
      (p : Packages) (r : Request) (t : Tables) (next : Uuid → Tables × Response)
      → Q t
      → ((room : Uuid) → Q (next room).0)
      → Q (with_room p r t next).0
  with_room_keeps p r t next q f =
      elim (Option-cases (p.parse_uuid (get_param (codes "roomId") r.params))) [
        | inl e ↦ rw (e, with_room) q
        | inr (room, e) ↦ rw (e, with_room) (f room)
      ]

  report_keeps :
      (done wrong : Text) (o : Tables × Outcome (Unit {0})) → Q o.0 → Q (report done wrong o).0
  report_keeps done wrong (t, ok x) q = q
  report_keeps done wrong (t, not_found) q = q
  report_keeps done wrong (t, failed) q = q

  own_room_keeps :
      (env : Env) (user : User) (o : Tables × Outcome Room) → Q o.0 → Q (own_room env user o).0
  unfolding own_room apply
  own_room_keeps env user (t, ok room) q =
      lasting (env.call 1) (Change.new_member room.id user.id (codes "owner")) t q
  own_room_keeps env user (t, not_found) q = q
  own_room_keeps env user (t, failed) q = q

  pub create_keeps :
      (p : Packages) (env : Env) (r : Request) (t : Tables) → Q t → Q (Handlers.create p env r t).0
  unfolding Handlers.create apply
  create_keeps p env r t q = with_user_keeps r.user t _ q (λ user.
      elim (Option-cases (p.decode_room r.body)) [
        | inl e ↦ rw e q
        | inr (req, e) ↦ elim (Bool-cases (ltb (byte_len req.name) 2)) [
          | inl f ↦ rw (e, f) q
          | inr f ↦
              rw (e, f)
                (own_room_keeps env user
                  (create_room (env.call 0) req.name req.is_private user.id t)
                  (lasting (env.call 0) (Change.new_room req.name req.is_private user.id) t q))
        ]
      ])

  pub join_keeps :
      (p : Packages) (env : Env) (r : Request) (t : Tables) → Q t → Q (Handlers.join p env r t).0
  unfolding Handlers.join apply
  join_keeps p env r t q = with_user_keeps r.user t _ q (λ user. with_room_keeps p r t _ q (λ room.
      report_keeps _ _ _
        (lasting (env.call 0) (Change.new_member room user.id (codes "member")) t q)))

  pub leave_keeps :
      (p : Packages) (env : Env) (r : Request) (t : Tables) → Q t → Q (Handlers.leave p env r t).0
  unfolding Handlers.leave apply
  leave_keeps p env r t q = with_user_keeps r.user t _ q (λ user.
      with_room_keeps p r t _ q
        (λ room. report_keeps _ _ _ (lasting (env.call 0) (Change.no_member room user.id) t q)))

  pub room_history_keeps :
      (p : Packages) (env : Env) (r : Request) (t : Tables) → Q t → Q (room_history p env r t).0
  unfolding room_history
  room_history_keeps p env r t q =
      with_user_keeps r.user t _ q (λ user. with_room_keeps p r t _ q (λ room. q))

  pub dm_history_keeps :
      (p : Packages) (env : Env) (r : Request) (t : Tables) → Q t → Q (dm_history p env r t).0
  unfolding dm_history
  dm_history_keeps p env r t q = with_user_keeps r.user t _ q (λ user.
      elim (Option-cases (p.parse_uuid (get_param (codes "userId") r.params))) [
        | inl e ↦ rw e q
        | inr (peer, e) ↦ rw e q
      ])
