-- ===== src/System/Privacy.antt =====
-- Who reads the history of a room from the server.
use livechat_server.Base.{
  ℕ, ◌+◌, ◌≡◌, refl, sym, ap, ◌∙◌, true, List, Text, Option, none, some, StrMap, arith, codes,
}
use livechat_server.Strings.{Unicode}
use livechat_server.Config.{Config}
use livechat_server.Store.Models.{Uuid, User, Message}
use livechat_server.Store.Queries.{Call, Dialect, any}
use livechat_server.Store.Rows.{Tables, is_member_row}
use livechat_server.Store.Sound.{IsSound}
use livechat_server.Store.Messages.{page_size, is_in_room}
use livechat_server.Store.Pages.{IsPage}
use livechat_server.Http.Types.{
  Packages, Env, Request, Response, respond, get_param, plain, messages,
}
use livechat_server.Http.Token.{authenticate, Verdict, denied, allowed}
use livechat_server.Http.Messages.{before_of, limit_of}
use livechat_server.Http.Messages.Privacy.{room_history_private}
use livechat_server.Http.Router.{
  Endpoint, Route, RouterDeps, room_messages, routes, find_route, serve, handler_of,
}
use livechat_server.Http.Router.Guard.{serve_guarded}
use livechat_server.Ws.Hub.{Conn}
use livechat_server.System.{Input, deps_of, start, run}
use livechat_server.System.Histories.{tables-IsSound}

-- What an answer with messages tells: whose token came, that this user is a member of the room of the
-- path, and that the messages are a page of the room.
abbrev pub IsShown :
    ⦃u : Unicode⦄ → Packages → Text → Env → Request → StrMap Text → Tables → List Message → Type 0
IsShown p secret env r params t l =
    (user : User) × (room : Uuid) × (authenticate p secret env r t ≡ allowed user)
    × (p.parse_uuid (get_param (codes "roomId") params) ≡ some room)
    × (any (is_member_row room user.id) t.members ≡ true)
    × IsPage (is_in_room room (before_of p env r)) (page_size (limit_of r)) t l

or_else : {A : Type 0} → A → Option A → A
or_else a none = a
or_else a (some x) = x

same_of_some : {A : Type 0} {a b : A} → some a ≡ some b → a ≡ b
unfolding or_else
same_of_some {a = a} h = ap (or_else a) h

module _ ⦃u : Unicode⦄ (p : Packages) (deps : RouterDeps)
    (match : Text → Text → Option (StrMap Text)) (env : Env) (r : Request) (params : StrMap Text)
    (t t' : Tables) (l : List Message) (s : IsSound t) where
  -- What a handler behind Require answers to a verdict.
  answered :
      (x : Endpoint) (v : Verdict)
      → x ≡ room_messages
      → authenticate p deps.auth.jwt_secret env r t ≡ v
      → elim v as (λ k. Tables × Response) [
        | denied reason ↦ (t, respond 401 (plain reason))
        | allowed user ↦
            handler_of p deps match x
              (record env { call = λ n. env.call (n + 1) })
              (record r { params = params; user = some user })
              t
      ]
        ≡ (t', respond 200 (messages l))
      → IsShown p deps.auth.jwt_secret env r params t l
  unfolding handler_of
  answered x (denied reason) is e h = absurd (ground arith)
  answered x (allowed user) is e h =
      let (user', room, same, parsed, member, kept, shown) =
        room_history_private p (record env { call = λ n. env.call (n + 1) })
          (record r { params = params; user = some user }) t t' l s (rw (is, handler_of) at h) in
      (user', room, e ∙ ap allowed (same_of_some same), parsed, member, shown)

-- Whatever came before, from sound tables on: if the route of a request is that of a room's history
-- and the answer has messages, then the token of the request is that of a user who is a member of the
-- room of the path, and the messages are a page of the room, as the limit and the instant of the
-- request ask.
pub history_private :
    ⦃u : Unicode⦄
    → (cfg : Config) (p : Packages) (d : Dialect) (match : Text → Text → Option (StrMap Text))
      (calls reads : ℕ → Call) (find_call insert_call get_call : Call) (creator : Uuid)
      (conns : ℕ → Conn) (t : Tables) (inputs : List Input) (env : Env) (r : Request) (x : Route)
      (params : StrMap Text) (t' : Tables) (l : List Message)
    → IsSound t
    → find_route p (deps_of cfg d) match r routes ≡ some (x, params)
    → x.endpoint ≡ room_messages
    → serve p
        (deps_of cfg d)
        match
        env
        r
        (run cfg p d match calls reads inputs
          (start d find_call insert_call get_call creator conns t)).db.tables
      ≡ some (t', respond 200 (messages l))
    → IsShown p cfg.jwt_secret env r params
        (run cfg p d match calls reads inputs
          (start d find_call insert_call get_call creator conns t)).db.tables
        l
unfolding deps_of
history_private cfg p d match calls reads find_call insert_call get_call creator conns t inputs env
      r x params t' l s found ends h =
    let now : Tables =
      (run cfg p d match calls reads inputs
        (start d find_call insert_call get_call creator conns t)).db.tables in
    let sound : IsSound now =
      tables-IsSound cfg p d match calls reads find_call insert_call get_call creator conns t inputs
        s in
    let guarded = serve_guarded p (deps_of cfg d) match env r now x params found (rw ends refl) in
    answered p (deps_of cfg d) match env r params now t' l sound x.endpoint
      (authenticate p cfg.jwt_secret env r now) ends refl (same_of_some (sym guarded ∙ h))
