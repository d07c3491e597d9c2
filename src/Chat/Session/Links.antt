-- ===== src/Chat/Session/Links.antt =====
-- What every history of the server does to the session of a client, and that the goroutines of
-- internal/chat/client.go do it.
use livechat_server.Base.{ℕ, ◌≡◌, ◌⊎◌, none, List, ◌∷◌, ◌++◌, ℤ}
use livechat_server.Strings.{Unicode}
use livechat_server.Chat.Config.{Config}
use livechat_server.Chat.Client.{Link, new_link}
use livechat_server.Chat.Server.{Server}
use livechat_server.Chat.Registry.{add_client}
use livechat_server.Chat.Server.Keeps.{waiting}
use livechat_server.Chat.Loops.{Session}
use livechat_server.Chat.Loops.Coarse.{Operation, perform_all}
use livechat_server.Chat.Session.{Event, connects, run}

-- A client that handleConn has refused in a run of the server, as its name was taken.
pub record WasRefused ⦃u : Unicode⦄ (s : Server) (es : List Event) (c : ℕ) : Type 0 where
  pub before : List Event
  pub after : List Event
  pub comes : es ≡ before ++ connects ∷ after
  pub is_next : (run s before).next_client ≡ c
  pub taken : add_client (waiting (run s before)).reg (run s before).next_client ≡ none

module _ (capacity : ℤ) where
  -- The link is what some operations make of a new one.
  record WasUsed (l : Link) : Type 0 where
    operations : List Operation
    same : l ≡ perform_all capacity operations new_link

  module _ (Refused : ℕ → Type 0) where
    abbrev IsUsed : ℕ → Link → Type 0
    IsUsed c l = WasUsed l ⊎ Refused c

    -- Every session of the server is what operations made of a new one, or its client was refused.
    record AreUsed (s : Server) : Type 0 where
      fits : s.cfg.send_buffer_size ≡ capacity
      used : (c : ℕ) → IsUsed c (s.link_at c)
