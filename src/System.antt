-- ===== src/System.antt =====
-- cmd/server/main.go (and main.go, its copy): the server put together, as requests, new sockets and
-- rounds of the hub's loops come in any order.
pub mod Keeps
pub mod Requests
pub mod Sockets
pub mod Histories
pub mod Growth
pub mod Connections
pub mod Privacy
pub mod Main
use livechat_server.Base.{ℕ, ◌+◌, Bool, List, [], ◌∷◌, Text, Option, none, some, StrMap}
use livechat_server.Strings.{Unicode}
use livechat_server.Config.{Config}
use livechat_server.Store.Models.{Uuid}
use livechat_server.Store.Queries.{Call, Dialect}
use livechat_server.Store.Rows.{Tables}
use livechat_server.Store.Rooms.{ensure_default_room}
use livechat_server.Http.Types.{Request, Response, Packages, Env}
use livechat_server.Http.Router.{RouterDeps, serve}
use livechat_server.Http.Sockets.{serve_ws}
use livechat_server.Ws.Hub.{Conn, new_hub}
use livechat_server.Ws.Conn.{World}
use livechat_server.Ws.Histories.{Round}
use livechat_server.Ws.Histories as Rounds
use livechat_server.Ws.Database.{Database, store_over}

-- The handlers as the configuration sets them up.
unfoldable pub deps_of : Config → Dialect → RouterDeps
deps_of cfg d = record {
  auth = record { jwt_secret = cfg.jwt_secret; token_ttl = cfg.token_ttl };
  uploads = record { upload_dir = cfg.upload_dir; max_upload_mb = cfg.max_upload_mb };
  dialect = d;
  cors_origins = cfg.cors_origins;
}

-- What may happen: a request, a request for a socket (see Http/Sockets) that gets an address, or a
-- round of a loop at an instant.
pub data Input : Type 0 where
  request : Env → Request → Input
  socket : Env → Bool → ℕ → Request → Input
  round : ℕ → Round → Input

abbrev pub with_tables : World Database → Tables → World Database
with_tables w t = record w { db = record w.db { tables = t } }

abbrev pub served : World Database → Option (Tables × Response) → World Database
served w none = w
served w (some (t, response)) = with_tables w t

-- The world before the first request: an error of EnsureDefaultRoom is only logged.
unfoldable pub start : Dialect → Call → Call → Call → Uuid → (ℕ → Conn) → Tables → World Database
start d find_call insert_call get_call creator conns t = record {
  hub = new_hub conns;
  db = record {
    tables = (ensure_default_room find_call insert_call get_call creator d t).0;
    made = 0;
  };
}

module _ ⦃u : Unicode⦄ (cfg : Config) (p : Packages) (d : Dialect)
    (match : Text → Text → Option (StrMap Text)) (calls reads : ℕ → Call) where
  unfoldable pub step : Input → World Database → World Database
  step (request env r) w = served w (serve p (deps_of cfg d) match env r w.db.tables)
  step (socket env upgraded c r) w = record w {
    hub = (serve_ws p cfg.jwt_secret env upgraded c r w.db.tables w.hub).1;
  }
  step (round now r) w = Rounds.step (store_over calls reads) p.parse_uuid now r w

  unfoldable pub run : List Input → World Database → World Database
  run [] w = w
  run (i ∷ inputs) w = run inputs (step i w)
