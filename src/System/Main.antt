-- ===== src/System/Main.antt =====
-- `main` of main.go and cmd/server/main.go, from the start of the program to its end, and the runs of
-- the program that follow each other on one database.
use livechat_server.Base.{
  ℕ, Bool, List, [], ◌∷◌, Text, codes, Option, ℤ, StrMap, Bool-cases, inl, inr, if◌then◌else◌,
}
use livechat_server.Strings.{Unicode}
use livechat_server.Config.{load}
use livechat_server.Store.Models.{Uuid}
use livechat_server.Store.Queries.{Call, Dialect}
use livechat_server.Store.Rows.{Tables}
use livechat_server.Store.Sound.{IsSound}
use livechat_server.Store.Histories.{apply-IsSound}
use livechat_server.Http.Types.{Packages}
use livechat_server.Ws.Hub.{Conn}
use livechat_server.System.{Input, start, run}
use livechat_server.System.Keeps.{IsLasting}
use livechat_server.System.Histories.{run_keeps, start_keeps}
use livechat_server.System.Growth.{HasGrown, HasGrown-same, HasGrown-IsLasting}

-- The program returns, or ends in log.Fatalf.
pub data Exit : Type 0 where
  returned : Exit
  fatal : Text → Exit

-- What one run of the program meets: the variables of the environment, whether the pool opens, the
-- calls of the seeding, what comes while the server serves, and whether ListenAndServe ends with an
-- error other than ErrServerClosed.
pub record Life : Type 0 where
  pub environment : Text → Text
  pub opens : Bool
  pub find_call : Call
  pub insert_call : Call
  pub get_call : Call
  pub creator : Uuid
  pub conns : ℕ → Conn
  pub calls : ℕ → Call
  pub reads : ℕ → Call
  pub inputs : List Input
  pub breaks : Bool

module _ ⦃u : Unicode⦄ (p : Packages) (d : Dialect) (parse_duration : Text → Option ℤ)
    (match : Text → Text → Option (StrMap Text)) where
  -- What is served, between the seeding of the default room and the end of ListenAndServe.
  unfoldable pub serving : Life → Tables → Tables
  serving l t =
      (run (load l.environment parse_duration) p d match l.calls l.reads l.inputs
        (start d l.find_call l.insert_call l.get_call l.creator l.conns t)).db.tables

  unfoldable pub main : Life → Tables → Tables × Exit
  main l t =
      if l.opens
      then (serving l t, if l.breaks then Exit.fatal (codes "server error") else returned)
      else (t, Exit.fatal (codes "db connect failed"))

  -- The program is started again and again.
  unfoldable pub main_again : List Life → Tables → Tables
  main_again [] t = t
  main_again (l ∷ ls) t = main_again ls (main l t).0

  main_keeps : (Q : Tables → Type 0) → IsLasting Q → (l : Life) (t : Tables) → Q t → Q (main l t).0
  unfolding main serving
  main_keeps Q lasting l t q = elim (Bool-cases l.opens) [
    | inl e ↦ rw e (
        run_keeps (load l.environment parse_duration) p d match l.calls l.reads Q lasting l.inputs _
          (start_keeps (load l.environment parse_duration) p d match l.calls l.reads Q lasting
            l.find_call l.insert_call l.get_call l.creator l.conns t q))
    | inr e ↦ rw e q
  ]

  main_again_keeps :
      (Q : Tables → Type 0)
      → IsLasting Q
      → (ls : List Life) (t : Tables) → Q t
      → Q (main_again ls t)
  unfolding main_again
  main_again_keeps Q lasting [] t q = q
  main_again_keeps Q lasting (l ∷ ls) t q =
      main_again_keeps Q lasting ls (main l t).0 (main_keeps Q lasting l t q)

  -- However often the program is started again on a database with sound tables, in any environment,
  -- whatever comes and however it ends: the tables are sound, and those of users, rooms and messages
  -- begin with the rows of before, unchanged.
  pub main_again-IsSound :
      (ls : List Life) (t : Tables)
      → IsSound t
      → IsSound (main_again ls t) × HasGrown t (main_again ls t)
  main_again-IsSound ls t s = (
    main_again_keeps IsSound apply-IsSound ls t s,
    main_again_keeps (HasGrown t) (HasGrown-IsLasting t) ls t (HasGrown-same t),
  )
