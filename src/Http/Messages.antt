-- ===== src/Http/Messages.antt =====
-- internal/http/handlers/messages.go.
pub mod Privacy
use livechat_server.Base.{
  ℕ, Bool, true, false, Text, codes, Option, none, some, if◌then◌else◌, List, ℤ, pos,
}
use livechat_server.Store.Models.{Uuid, User, Message}
use livechat_server.Store.Queries.{Outcome, ok, not_found, failed}
use livechat_server.Store.Rows.{Tables}
use livechat_server.Store.Rooms.{is_room_member}
use livechat_server.Store.Messages.{list_room_messages, list_dms}
use livechat_server.Http.Types.{
  Request, Response, user_from_context, Packages, Env, Handler, Payload, respond, respond_error,
  get_param, parse_time_param,
}
use livechat_server.Http.Users.{with_user, limit_param}
use livechat_server.Http.Rooms.{with_room}

abbrev pub respond_messages : Outcome (List Message) → Response
respond_messages (ok l) = respond 200 (Payload.messages l)
respond_messages not_found = respond_error 500 (codes "failed to load messages")
respond_messages failed = respond_error 500 (codes "failed to load messages")

-- The limit and the instant that a request asks for.
abbrev pub limit_of : Request → ℤ
limit_of r = limit_param (pos 50) (get_param (codes "limit") r.query)

abbrev pub before_of : Packages → Env → Request → ℕ
before_of p env r = parse_time_param p env.now (get_param (codes "before") r.query)

-- RoomHistory behind IsRoomMember.
unfoldable pub history_if_member :
    Packages → Uuid → Outcome Bool → Env → Request → Tables → Response
history_if_member p room (ok true) env r t =
    respond_messages (list_room_messages (env.call 1) room (limit_of r) (before_of p env r) t)
history_if_member p room (ok false) env r t = respond_error 403 (codes "not a member")
history_if_member p room not_found env r t = respond_error 403 (codes "not a member")
history_if_member p room failed env r t = respond_error 403 (codes "not a member")

module _ (p : Packages) where
  unfoldable pub room_history : Handler
  room_history env r t = with_user (user_from_context r) t (λ user.
      with_room p r t (λ room.
        (t, history_if_member p room (is_room_member (env.call 0) room user.id t) env r t)))

  unfoldable pub dm_history : Handler
  dm_history env r t = with_user (user_from_context r) t (λ user.
      elim (p.parse_uuid (get_param (codes "userId") r.params)) [
        | none ↦ (t, respond_error 400 (codes "invalid user id"))
        | some peer ↦ (
          t,
          respond_messages (list_dms (env.call 0) user.id peer (limit_of r) (before_of p env r) t),
        )
      ])
