-- ===== src/Ws/Conn/Rooms.antt =====
-- What a connection's own record of its rooms has to do with the hub's.
use livechat_server.Base.{
  ◌≡◌, Bool, false, refl, not, ◌&&◌, ◌||◌, List, [], ◌∷◌, text_eq, text_eq_iff, keep_if, arith, ℕ,
  Text, Option, update, ==_iff,
}
use livechat_server.Strings.{Unicode}
use livechat_server.Ws.Messages.{Uuid, Event, ClientEvent}
use livechat_server.Ws.Sets.{in_set, in_set-add_under}
use livechat_server.Ws.Sets.Tidy.{in_set-remove_under}
use livechat_server.Ws.Conn.Keeps.{IsKept, handle_client_event_keeps}
use livechat_server.Ws.Hub.{Hub, enqueue, subscribe_room, unsubscribe_room}
use livechat_server.Ws.Conn.{World, Store, add_room, drop_room, handle_client_event}

-- Whether a UUID stands in a list.
unfoldable pub has_uuid : Uuid → List Uuid → Bool
has_uuid k [] = false
has_uuid k (j ∷ l) = text_eq j k || has_uuid k l

pub has_uuid-keep_if :
    (k r : Uuid) (l : List Uuid)
    → has_uuid k (keep_if (λ j. not (text_eq j r)) l) ≡ (has_uuid k l && not (text_eq r k))
unfolding has_uuid keep_if
has_uuid-keep_if k r [] = refl
has_uuid-keep_if k r (j ∷ l) =
    ground (arith, text_eq_iff j k, text_eq_iff j r, text_eq_iff r k, has_uuid-keep_if k r l)

-- Each connection's own record has the rooms that it is subscribed to.
abbrev pub HasAgreement : Hub → Type 0
HasAgreement h = (k : Uuid) (b : ℕ) → in_set k b h.rooms ≡ has_uuid k (h.conn_at b).rooms

module _ (h : Hub) (s : HasAgreement h) (c : ℕ) where
  sends_agree :
      (event : Event)
      → HasAgreement (record h { conn_at = update h.conn_at c (enqueue event (h.conn_at c)) })
  unfolding update enqueue
  sends_agree event k b = ground (arith, s k b, ==_iff c b)

  joins_agree :
      (room : Uuid) (event : Event)
      → HasAgreement (record (subscribe_room room c h) {
        conn_at = update h.conn_at c (enqueue event (add_room room (h.conn_at c)));
      })
  unfolding subscribe_room update enqueue add_room has_uuid
  joins_agree room event k b = ground (
    arith,
    s k b,
    in_set-add_under room k c b h.rooms,
    ==_iff c b,
    ==_iff b c,
    has_uuid-keep_if k room (h.conn_at c).rooms,
  )

  leaves_agree :
      (room : Uuid)
      → HasAgreement (
          unsubscribe_room room c
            (record h { conn_at = update h.conn_at c (drop_room room (h.conn_at c)) }))
  unfolding unsubscribe_room update drop_room
  leaves_agree room k b = ground (
    arith,
    s k b,
    in_set-remove_under room k c b h.rooms,
    ==_iff c b,
    ==_iff b c,
    has_uuid-keep_if k room (h.conn_at c).rooms,
  )

HasAgreement-IsKept : (c : ℕ) → IsKept HasAgreement c
HasAgreement-IsKept c = record {
  queues = λ q h s. s;
  sends = λ event h s. sends_agree h s c event;
  joins = λ room event h s. joins_agree h s c room event;
  leaves = λ room h s. leaves_agree h s c room;
}

-- If each connection's own record has exactly the rooms that it is subscribed to, so it is after
-- any event of any client.
pub handle_client_event-HasAgreement :
    ⦃u : Unicode⦄
    → {Db : Type 0} (store : Store Db) (parse : Text → Option Uuid) (now : ℕ) (msg : ClientEvent)
      (c : ℕ) (w : World Db)
    → HasAgreement w.hub
    → HasAgreement (handle_client_event store parse now msg c w).hub
handle_client_event-HasAgreement store parse now msg c w s =
    handle_client_event_keeps HasAgreement c (HasAgreement-IsKept c) store parse now msg w s
