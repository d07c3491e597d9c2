-- ===== src/Http/Rooms.antt =====
-- internal/http/handlers/rooms.go.
use livechat_server.Base.{Text, codes, none, some, if◌then◌else◌, ltb, List}
use livechat_server.Strings.{byte_len}
use livechat_server.Store.Models.{Uuid, User, Room}
use livechat_server.Store.Queries.{Outcome, ok, not_found, failed}
use livechat_server.Store.Rows.{Tables}
use livechat_server.Store.Rooms.{create_room, list_rooms, add_room_member, remove_room_member}
use livechat_server.Http.Types.{
  Request, Response, user_from_context, Packages, Env, Handler, Payload, respond, respond_error,
  get_param,
}
use livechat_server.Http.Users.{with_user}

abbrev pub respond_rooms : Outcome (List Room) → Response
respond_rooms (ok l) = respond 200 (Payload.rooms l)
respond_rooms not_found = respond_error 500 (codes "failed to load rooms")
respond_rooms failed = respond_error 500 (codes "failed to load rooms")

unfoldable pub list : Handler
list env r t =
    with_user (user_from_context r) t
      (λ user. (t, respond_rooms (list_rooms (env.call 0) user.id t)))

-- Create behind CreateRoom: an error of AddRoomMember is ignored.
unfoldable pub own_room : Env → User → Tables × Outcome Room → Tables × Response
own_room env user (t, ok room) = (
  (add_room_member (env.call 1) room.id user.id (codes "owner") t).0,
  respond 201 (Payload.room room),
)
own_room env user (t, not_found) = (t, respond_error 409 (codes "room already exists"))
own_room env user (t, failed) = (t, respond_error 409 (codes "room already exists"))

-- The end of Join and of Leave.
abbrev pub report : Text → Text → Tables × Outcome (Unit {0}) → Tables × Response
report done wrong (t, ok _) = (t, respond 200 (Payload.status done))
report done wrong (t, not_found) = (t, respond_error 500 wrong)
report done wrong (t, failed) = (t, respond_error 500 wrong)

module _ (p : Packages) where
  unfoldable pub create : Handler
  create env r t = with_user (user_from_context r) t (λ user. elim (p.decode_room r.body) [
    | none ↦ (t, respond_error 400 (codes "invalid payload"))
    | some req ↦
        if ltb (byte_len req.name) 2
        then (t, respond_error 400 (codes "room name too short"))
        else own_room env user (create_room (env.call 0) req.name req.is_private user.id t)
  ])

  -- The room of the path.
  abbrev pub with_room : Request → Tables → (Uuid → Tables × Response) → Tables × Response
  with_room r t next = elim (p.parse_uuid (get_param (codes "roomId") r.params)) [
    | none ↦ (t, respond_error 400 (codes "invalid room id"))
    | some room ↦ next room
  ]

  unfoldable pub join : Handler
  join env r t = with_user (user_from_context r) t (λ user. with_room r t (λ room.
      report (codes "joined") (codes "failed to join room")
        (add_room_member (env.call 0) room user.id (codes "member") t)))

  unfoldable pub leave : Handler
  leave env r t = with_user (user_from_context r) t (λ user. with_room r t (λ room.
      report (codes "left") (codes "failed to leave room")
        (remove_room_member (env.call 0) room user.id t)))
