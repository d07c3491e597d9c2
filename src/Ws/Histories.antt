-- ===== src/Ws/Histories.antt =====
-- The rounds of the loops of internal/ws, in any order: of `Run`, of a connection's `readLoop` and of
-- its `writeLoop`.
use livechat_server.Base.{ℕ, List, [], ◌∷◌, Text, Option}
use livechat_server.Strings.{Unicode}
use livechat_server.Ws.Messages.{Uuid, ClientEvent}
use livechat_server.Ws.Hub.{Conn, Selected, run_step, write_conn, new_hub}
use livechat_server.Ws.Hub.Sound.{IsSound, run_step-IsSound}
use livechat_server.Ws.Conn.{World, Store, on_hub, on_conn, handle_client_event}
use livechat_server.Ws.Conn.Sound.{
  handle_client_event-IsSound, rewritten-IsSound, user-write_conn, new_hub-IsSound,
}

pub data Round : Type 0 where
  hub : Selected → Round
  read : ClientEvent → ℕ → Round
  write : ℕ → Round

module _ ⦃u : Unicode⦄ {Db : Type 0} (store : Store Db) (parse : Text → Option Uuid) where
  -- A round, at the instant `now`.
  unfoldable pub step : ℕ → Round → World Db → World Db
  step now (Round.hub e) w = on_hub (run_step now e) w
  step now (Round.read msg c) w = handle_client_event store parse now msg c w
  step now (Round.write c) w = on_conn c write_conn w

  unfoldable pub run : List (ℕ × Round) → World Db → World Db
  run [] w = w
  run ((now, r) ∷ rounds) w = run rounds (step now r w)

  pub step-IsSound :
      (now : ℕ) (r : Round) (w : World Db) → IsSound w.hub → IsSound (step now r w).hub
  unfolding step
  step-IsSound now (Round.hub e) w s = run_step-IsSound now e w.hub s
  step-IsSound now (Round.read msg c) w s = handle_client_event-IsSound store parse now msg c w s
  step-IsSound now (Round.write c) w s = rewritten-IsSound c write_conn w.hub user-write_conn s

  pub run-IsSound :
      (rounds : List (ℕ × Round)) (w : World Db) → IsSound w.hub → IsSound (run rounds w).hub
  unfolding run
  run-IsSound [] w s = s
  run-IsSound ((now, r) ∷ rounds) w s = run-IsSound rounds (step now r w) (step-IsSound now r w s)

  -- From a new hub, however the rounds of the loops are ordered, no table keeps an empty set or a
  -- connection twice, and a connection stands under its own user alone.
  pub hub-IsSound :
      (conns : ℕ → Conn) (db : Db) (rounds : List (ℕ × Round))
      → IsSound (run rounds (record { hub = new_hub conns; db = db })).hub
  hub-IsSound conns db rounds =
      run-IsSound rounds (record { hub = new_hub conns; db = db }) (new_hub-IsSound conns)
