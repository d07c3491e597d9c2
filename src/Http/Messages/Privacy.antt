-- ===== src/Http/Messages/Privacy.antt =====
-- Who may read what by internal/http/handlers/messages.go.
use livechat_server.Base.{
  ◌≡◌, true, List, codes, some, arith, Option-cases, inl, inr, Bool-cases, ◌&&◌,
}
use livechat_server.Store.Models.{Uuid, User, Message}
use livechat_server.Store.Queries.{Outcome, ok, not_found, failed, query, any}
use livechat_server.Store.Rows.{Tables, is_member_row}
use livechat_server.Store.Sound.{IsSound}
use livechat_server.Store.Rooms.{is_room_member}
use livechat_server.Store.Messages.{page_size, is_in_room, list_room_messages}
use livechat_server.Store.Pages.{IsPage, list_room_messages-IsPage}
use livechat_server.Http.Types.{Request, Packages, Env, respond, Payload, get_param}
use livechat_server.Http.Messages.{
  room_history, history_if_member, limit_of, before_of, respond_messages,
}

listed_ok :
    (o : Outcome (List Message)) (l : List Message)
    → respond_messages o ≡ respond 200 (Payload.messages l)
    → o ≡ ok l
listed_ok (ok m) l h = ground arith
listed_ok not_found l h = ground arith
listed_ok failed l h = ground arith

-- An answer of the history comes from a member's request.
shown_to_member :
    (p : Packages) (room : Uuid) (user : User) (env : Env) (r : Request) (t : Tables)
    (l : List Message)
    → history_if_member p room (is_room_member (env.call 0) room user.id t) env r t
      ≡ respond 200 (Payload.messages l)
    → (any (is_member_row room user.id) t.members ≡ true)
      × (list_room_messages (env.call 1) room (limit_of r) (before_of p env r) t ≡ ok l)
unfolding history_if_member is_room_member query
shown_to_member p room user env r t l h =
    elim (Bool-cases ((env.call 0).reached && (env.call 0).answered)) [
      | inr e ↦ absurd (ground arith)
      | inl e ↦ elim (Bool-cases (any (is_member_row room user.id) t.members)) [
        | inr f ↦ absurd (ground arith)
        | inl f ↦ (f, listed_ok _ l (ground arith))
      ]
    ]

-- Messages that RoomHistory shows from sound tables are a page of the room of the path, as the limit
-- and the instant of the request ask, and the user of the request is a member of it.
pub room_history_private :
    (p : Packages) (env : Env) (r : Request) (t t' : Tables) (l : List Message)
    → IsSound t
    → room_history p env r t ≡ (t', respond 200 (Payload.messages l))
    → (user : User) × (room : Uuid) × (r.user ≡ some user)
      × (p.parse_uuid (get_param (codes "roomId") r.params) ≡ some room)
      × (any (is_member_row room user.id) t.members ≡ true)
      × (t' ≡ t)
      × IsPage (is_in_room room (before_of p env r)) (page_size (limit_of r)) t l
unfolding room_history
room_history_private p env r t t' l s h = elim (Option-cases r.user) [
  | inl e ↦ absurd (ground arith)
  | inr (user, e) ↦ elim (Option-cases (p.parse_uuid (get_param (codes "roomId") r.params))) [
    | inl f ↦ absurd (ground arith)
    | inr (room, f) ↦
        let (member, listed) = shown_to_member p room user env r t l (ground arith) in
        (
          user,
          room,
          e,
          f,
          member,
          ground arith,
          list_room_messages-IsPage (env.call 1) room (limit_of r) (before_of p env r) t l s listed,
        )
  ]
]
