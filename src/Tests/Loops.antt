-- ===== src/Tests/Loops.antt =====
-- The goroutines of a session (Chat/Loops) on short runs, and the loop that accepts connections.
use livechat_server.Base.{
  arith, ◌+◌, ◌≤◌, ◌≡◌, ◌≢◌, refl, ◌⊎◌, true, false, ◌&&◌, all, List, [], ◌∷◌, ◌++◌, map, Text,
  codes, pos, length,
}
use livechat_server.Strings.{trim_line_end}
use livechat_server.Chat.Client.{as_line}
use livechat_server.Strings.Ascii.{ascii}
use livechat_server.Chat.Config.{default_config}
use livechat_server.Chat.Server.{Server, new_server}
use livechat_server.Chat.Session.{Event, run}
use livechat_server.Chat.Session.Listening.{
  Turn, listen_and_serve, events_of, is_listening, is_harmless, listen_and_serve-run,
}
use livechat_server.Chat.Loops.{
  Session, Step, Steps, here, next, new_session, at_close, closed_twice, sent_on_closed,
}
use livechat_server.Chat.Loops.Invariant.{shutdown_once, written_in_order}
use livechat_server.Chat.Loops.Measure.{steps_left}
use livechat_server.Chat.Loops.Ending.{IsOver, CanFinish, shut_session_ends}
use livechat_server.Chat.Loops.Panics.{send_panics, closed_send_panics}

abbrev hi : Text
hi = trim_line_end (codes "hi")

-- A message is sent and written; a second one waits in a buffer for two.
abbrev told : (s : Session) × Steps (pos 2) (new_session (pos 9)) 5 s
told = (
  _,
  next
      (next
        (next
          (next (next here refl (Step.pass (codes "hi") refl)) refl
            (Step.put hi [] [] refl refl refl))
          refl (Step.writes hi [] refl refl refl))
        refl (Step.pass (codes "you") refl))
      refl (Step.put (trim_line_end (codes "you")) [] [] refl refl refl),
)

-- The line ends, and the reader runs the body of `once` up to the end of the connection.
abbrev shut : (s : Session) × Steps (pos 2) (new_session (pos 9)) 10 s
shut = (
  _,
  next
      (next
        (next (next (next told.1 refl (Step.scan_ends refl)) refl (Step.enter_reader at_close refl))
          refl (Step.close_done refl))
        refl (Step.close_send refl))
      refl (Step.close_conn refl),
)

abbrev over : (s : Session) × Steps (pos 2) shut.0 4 s
over = (
  _,
  next
      (next (next (next here refl (Step.remove_client refl)) refl (Step.reader_leaves refl refl))
        refl (Step.writer_sees_done refl refl))
      refl (Step.watcher_sees_done refl refl),
)

shutdown_once_example :
    (shut.0.removed ≤ 1)
    × (shut.0.removed ≡ 1
        → (shut.0.done ≡ true) × (shut.0.send_is_closed ≡ true) × (shut.0.conn_open ≡ false))
    × (shut.0.panic ≢ closed_twice)
shutdown_once_example = shutdown_once (pos 2) (pos 9) shut.0 shut.1

written_in_order_example :
    ((rest : List Text) × (map as_line told.0.accepted ≡ told.0.written ++ rest))
    × (length told.0.buffer ≤ 2)
written_in_order_example = written_in_order (pos 2) (pos 9) told.0 told.1

shut_session_ends_example :
    (4 + steps_left over.0 ≤ steps_left shut.0)
    × (IsOver over.0 ⊎ ((u : Session) × Step (pos 2) over.0 u))
    × CanFinish (pos 2) shut.0
shut_session_ends_example =
    shut_session_ends (pos 2) (pos 9) shut.0 over.0 shut.1 (refl, refl) over.1

-- A third message has passed the look at `done`.
abbrev asking : (s : Session) × Steps (pos 2) (new_session (pos 9)) 6 s
asking = (_, next told.1 refl (Step.pass (codes "hi") refl))

send_panics_example :
    (t : Session) × Steps (pos 2) asking.0 5 t × (t.sending ≡ []) × (t.panic ≡ sent_on_closed)
send_panics_example = send_panics (pos 2) (pos 9) 6 asking.0 hi [] [] asking.1 refl refl refl refl

-- Two goroutines are in Send while the reader closes the channel.
abbrev caught : (s : Session) × Steps (pos 2) asking.0 5 s
caught = (
  _,
  next
      (next
        (next (next (next here refl (Step.pass (codes "you") refl)) refl (Step.scan_ends refl)) refl
          (Step.enter_reader at_close refl))
        refl (Step.close_done refl))
      refl (Step.close_send refl),
)

-- One of them goes on.
abbrev failed : (t : Session) × Steps (pos 2) caught.0 1 t
failed =
    (_, next here refl (Step.send_on_closed hi (trim_line_end (codes "you") ∷ []) [] refl refl))

closed_send_panics_example : failed.0.panic ≡ sent_on_closed
closed_send_panics_example = closed_send_panics refl failed.1 (omega arith)

-- A connection, a timeout, a line from it, the end of the context, and a connection that is too late.
abbrev heard : List Turn
heard =
    Turn.accepts
    ∷ Turn.fails false true
    ∷ Turn.happens (Event.reads 0 (codes "/quit"))
    ∷ Turn.fails true false
    ∷ Turn.accepts
    ∷ []

heard_events : events_of true heard ≡ Event.connects ∷ Event.reads 0 (codes "/quit") ∷ []
unfolding events_of
heard_events = refl

listen_and_serve-run_example :
    ((listen_and_serve ⦃u = ascii⦄ true heard (new_server default_config)).server
      ≡ run ⦃u = ascii⦄ (new_server default_config) (events_of true heard))
    × (is_listening (listen_and_serve ⦃u = ascii⦄ true heard (new_server default_config)).returned
        ≡ true && all is_harmless heard)
listen_and_serve-run_example =
    listen_and_serve-run ⦃u = ascii⦄ true heard (new_server default_config)

-- The first client leaves and is written to once.
abbrev heard_out : Server
heard_out =
    run ⦃u = ascii⦄ (new_server default_config)
      (Event.connects ∷ Event.writes 0 ∷ Event.reads 0 (codes "/quit") ∷ [])
