-- ===== src/System/Histories.antt =====
-- What holds of the server's tables whatever happens.
use livechat_server.Base.{ℕ, List, [], ◌∷◌, Text, Option, StrMap, Option-cases, inl, inr}
use livechat_server.Strings.{Unicode}
use livechat_server.Config.{Config}
use livechat_server.Store.Models.{Uuid}
use livechat_server.Store.Queries.{Call, Dialect}
use livechat_server.Store.Rows.{Tables}
use livechat_server.Store.Sound.{IsSound}
use livechat_server.Store.Histories.{Change, apply, apply-IsSound}
use livechat_server.Http.Types.{Packages}
use livechat_server.Http.Router.{serve}
use livechat_server.Ws.Hub.{Conn}
use livechat_server.Ws.Conn.{World}
use livechat_server.Ws.Database.{Database}
use livechat_server.System.{Input, deps_of, start, step, run}
use livechat_server.System.Keeps.{IsLasting}
use livechat_server.System.Requests.{serve_keeps}
use livechat_server.System.Sockets.{step_keeps}

module _ ⦃u : Unicode⦄ (cfg : Config) (p : Packages) (d : Dialect)
    (match : Text → Text → Option (StrMap Text)) (calls reads : ℕ → Call) where
  module _ (Q : Tables → Type 0) (lasting : IsLasting Q) where
    input_keeps :
        (i : Input) (w : World Database)
        → Q w.db.tables
        → Q (step cfg p d match calls reads i w).db.tables
    unfolding step
    input_keeps (Input.request env r) w q =
        elim (Option-cases (serve p (deps_of cfg d) match env r w.db.tables)) [
          | inl e ↦ rw (e, step) q
          | inr ((t, response), e) ↦
              rw (e, step)
                (serve_keeps Q lasting p (deps_of cfg d) match env r w.db.tables t response q e)
        ]
    input_keeps (Input.socket env upgraded c r) w q = q
    input_keeps (Input.round now r) w q = step_keeps Q lasting calls reads p.parse_uuid now r w q

    pub run_keeps :
        (inputs : List Input) (w : World Database)
        → Q w.db.tables
        → Q (run cfg p d match calls reads inputs w).db.tables
    unfolding run
    run_keeps [] w q = q
    run_keeps (i ∷ inputs) w q =
        run_keeps inputs (step cfg p d match calls reads i w) (input_keeps i w q)

    pub start_keeps :
        (find_call insert_call get_call : Call) (creator : Uuid) (conns : ℕ → Conn) (t : Tables)
        → Q t
        → Q (start d find_call insert_call get_call creator conns t).db.tables
    unfolding start apply
    start_keeps find_call insert_call get_call creator conns t q =
        lasting find_call (Change.default_room insert_call get_call creator d) t q

  -- From sound tables on, whatever requests, sockets and rounds of the loops come, in any order and
  -- with any errors of the database, no two rows share a key and every reference has its row.
  pub tables-IsSound :
      (find_call insert_call get_call : Call) (creator : Uuid) (conns : ℕ → Conn) (t : Tables)
      (inputs : List Input)
      → IsSound t
      → IsSound
          (run cfg p d match calls reads inputs
            (start d find_call insert_call get_call creator conns t)).db.tables
  tables-IsSound find_call insert_call get_call creator conns t inputs s =
      run_keeps IsSound apply-IsSound inputs _
        (start_keeps IsSound apply-IsSound find_call insert_call get_call creator conns t s)
