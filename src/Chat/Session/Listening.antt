-- ===== src/Chat/Session/Listening.antt =====
-- `ListenAndServe` of internal/chat/server.go: the loop that accepts connections, between the events
-- of the sessions.
use livechat_server.Base.{
  ◌≡◌, refl, all, Bool, true, false, ◌&&◌, not, List, [], ◌∷◌, Option, none, some, if◌then◌else◌,
}
use livechat_server.Strings.{Unicode}
use livechat_server.Chat.Server.{Server, handle_conn}
use livechat_server.Chat.Session.{Event, step, run}

-- ListenAndServe returns nil, or an error.
pub data Exit : Type 0 where
  stopped broken : Exit

-- What happens next: something in a session, or Accept answers with a connection or with an error.
-- For an error: whether the context is cancelled, and whether it is a timeout.
pub data Turn : Type 0 where
  happens : Event → Turn
  accepts : Turn
  fails : Bool → Bool → Turn

pub record Listening : Type 0 where
  pub server : Server
  pub returned : Option Exit

unfoldable pub is_listening : Option Exit → Bool
is_listening none = true
is_listening (some e) = false

-- What the loop does with an error.
unfoldable pub after_error : Bool → Bool → Option Exit
after_error cancelled timeout =
    if cancelled then some stopped else if timeout then none else some broken

module _ ⦃u : Unicode⦄ where
  -- The sessions go on when ListenAndServe has returned; nothing is accepted then.
  unfoldable pub turn : Turn → Listening → Listening
  turn (happens e) l = record l { server = step l.server e }
  turn accepts l = if is_listening l.returned then record l { server = handle_conn l.server } else l
  turn (fails cancelled timeout) l =
      if is_listening l.returned then record l { returned = after_error cancelled timeout } else l

  unfoldable pub turns : List Turn → Listening → Listening
  turns [] l = l
  turns (t ∷ ts) l = turns ts (turn t l)

  -- `bound` is whether net.Listen succeeds.
  unfoldable pub listen_and_serve : Bool → List Turn → Server → Listening
  listen_and_serve bound ts s =
      turns ts (record { server = s; returned = if bound then none else some broken })

-- A connection is taken by a loop that is `taking`; the first error that is no timeout, or that comes
-- when the context is cancelled, closes it.
unfoldable pub events_of : Bool → List Turn → List Event
events_of taking [] = []
events_of taking (happens e ∷ ts) = e ∷ events_of taking ts
events_of taking (accepts ∷ ts) =
    let rest = events_of taking ts in if taking then Event.connects ∷ rest else rest
events_of taking (fails cancelled timeout ∷ ts) =
    events_of (taking && (not cancelled && timeout)) ts

-- Whether the loop goes on behind it.
unfoldable pub is_harmless : Turn → Bool
is_harmless (happens e) = true
is_harmless accepts = true
is_harmless (fails cancelled timeout) = not cancelled && timeout

module _ ⦃u : Unicode⦄ where
  turns-run :
      (ts : List Turn) (s : Server) (r : Option Exit)
      → (turns ts (record { server = s; returned = r })).server
        ≡ run s (events_of (is_listening r) ts)
  unfolding turns turn run step events_of after_error is_listening
  turns-run [] s r = refl
  turns-run (happens e ∷ ts) s r = turns-run ts (step s e) r
  turns-run (accepts ∷ ts) s none = turns-run ts (handle_conn s) none
  turns-run (accepts ∷ ts) s (some e) = turns-run ts s (some e)
  turns-run (fails true timeout ∷ ts) s none = turns-run ts s (some stopped)
  turns-run (fails false true ∷ ts) s none = turns-run ts s none
  turns-run (fails false false ∷ ts) s none = turns-run ts s (some broken)
  turns-run (fails cancelled timeout ∷ ts) s (some e) = turns-run ts s (some e)

  turns-listening :
      (ts : List Turn) (s : Server) (r : Option Exit)
      → is_listening (turns ts (record { server = s; returned = r })).returned
        ≡ is_listening r && all is_harmless ts
  unfolding turns turn step after_error is_listening is_harmless all
  turns-listening [] s none = refl
  turns-listening [] s (some e) = refl
  turns-listening (happens e ∷ ts) s r = turns-listening ts (step s e) r
  turns-listening (accepts ∷ ts) s none = turns-listening ts (handle_conn s) none
  turns-listening (accepts ∷ ts) s (some e) = turns-listening ts s (some e)
  turns-listening (fails true timeout ∷ ts) s none = turns-listening ts s (some stopped)
  turns-listening (fails false true ∷ ts) s none = turns-listening ts s none
  turns-listening (fails false false ∷ ts) s none = turns-listening ts s (some broken)
  turns-listening (fails cancelled timeout ∷ ts) s (some e) = turns-listening ts s (some e)

  -- ListenAndServe leaves the server as the events do that it lets happen, with a connection for each
  -- that is accepted before it returns; and it goes on as long as no error comes but timeouts, while
  -- the context is not cancelled, if it could listen at all.
  pub listen_and_serve-run :
      (bound : Bool) (ts : List Turn) (s : Server)
      → ((listen_and_serve bound ts s).server ≡ run s (events_of bound ts))
        × (is_listening (listen_and_serve bound ts s).returned ≡ bound && all is_harmless ts)
  unfolding listen_and_serve is_listening
  listen_and_serve-run true ts s = (turns-run ts s none, turns-listening ts s none)
  listen_and_serve-run false ts s =
      (turns-run ts s (some broken), turns-listening ts s (some broken))
