-- ===== src/Chat/Session.antt =====
-- What happens to the server, as a sequence of events: a connection, a line of input, a round of
-- a session's writer, a failed write, the idle timer and the end of the input. Each handler runs to
-- its end before the next event.
pub mod Histories
pub mod Ghosts
pub mod Listening
pub mod Links
use livechat_server.Base.{
  ℕ, ◌≡◌, Bool, true, false, List, [], ◌∷◌, Text, codes, if◌then◌else◌, Heap, update,
}
use livechat_server.Strings.{Unicode}
use livechat_server.Chat.Client.{Link, write_link}
use livechat_server.Chat.Server.{Server, send_system, shutdown, handle_conn}
use livechat_server.Chat.Commands.{handle_input}

pub data Event : Type 0 where
  connects : Event
  reads : ℕ → Text → Event
  writes write_fails idles hangs_up : ℕ → Event

module _ ⦃u : Unicode⦄ where
  -- The reader's buffer may hold lines when the session is shut down: they are still handled. The
  -- other loops have ended then.
  unfoldable pub step : Server → Event → Server
  step s connects = handle_conn s
  step s (reads c line) = handle_input s c line
  step s (writes c) = record s { link_at = update s.link_at c (write_link (s.link_at c)) }
  step s (write_fails c) = shutdown s c (codes "write failure")
  step s (idles c) =
      if (s.link_at c).done
      then s
      else shutdown (send_system s c (codes "Disconnected due to inactivity.")) c
          (codes "idle timeout")
  step s (hangs_up c) = shutdown s c (codes "connection closed")

  unfoldable pub run : Server → List Event → Server
  run s [] = s
  run s (e ∷ es) = run (step s e) es
