-- ===== src/Chat/Server/Frames.antt =====
-- What sending leaves alone.
use livechat_server.Base.{
  ℕ, ◌≡◌, refl, ◌∙◌, Bool, true, false, List, [], ◌∷◌, Text, Option, none, some,
}
use livechat_server.Strings.{Unicode}
use livechat_server.Chat.Server.{
  Server, send, send_system, send_lines, greet, greet_topic, greet_history, broadcast_room,
  broadcast_room?, announce_join,
}

-- Only the links of the clients differ.
pub record OnlyLinks (s t : Server) : Type 0 where
  pub cfg : t.cfg ≡ s.cfg
  pub reg : t.reg ≡ s.reg
  pub next_id : t.next_id ≡ s.next_id

pub OnlyLinks-refl : (s : Server) → OnlyLinks s s
OnlyLinks-refl s = record { cfg = refl; reg = refl; next_id = refl }

pub OnlyLinks-trans : {s t r : Server} → OnlyLinks s t → OnlyLinks t r → OnlyLinks s r
OnlyLinks-trans a b = record {
  cfg = b.cfg ∙ a.cfg;
  reg = b.reg ∙ a.reg;
  next_id = b.next_id ∙ a.next_id;
}

pub send-OnlyLinks : (s : Server) (c : ℕ) (m : Text) → OnlyLinks s (send s c m)
unfolding send
send-OnlyLinks s c m = record { cfg = refl; reg = refl; next_id = refl }

pub send_system-OnlyLinks : (s : Server) (c : ℕ) (m : Text) → OnlyLinks s (send_system s c m)
unfolding send_system
send_system-OnlyLinks s c m = record { cfg = refl; reg = refl; next_id = refl }

pub send_lines-OnlyLinks :
    (s : Server) (c : ℕ) (name : Text) (l : List Text) → OnlyLinks s (send_lines s c name l)
unfolding send_lines
send_lines-OnlyLinks s c name [] = OnlyLinks-refl s
send_lines-OnlyLinks s c name (x ∷ l) =
    OnlyLinks-trans (send-OnlyLinks s c _) (send_lines-OnlyLinks (send s c _) c name l)

-- A message that is not stored changes links only.
pub broadcast-OnlyLinks :
    (s : Server) (room : ℕ) (text : Text) (exclude : Option ℕ)
    → OnlyLinks s (broadcast_room s room text false exclude)
unfolding broadcast_room
broadcast-OnlyLinks s room text exclude = record { cfg = refl; reg = refl; next_id = refl }

pub broadcast?-OnlyLinks :
    (s : Server) (room : Option ℕ) (text : Text) (exclude : Option ℕ)
    → OnlyLinks s (broadcast_room? s room text false exclude)
unfolding broadcast_room?
broadcast?-OnlyLinks s none text exclude = OnlyLinks-refl s
broadcast?-OnlyLinks s (some room) text exclude = broadcast-OnlyLinks s room text exclude

module _ ⦃u : Unicode⦄ where
  greet_topic-OnlyLinks : (s : Server) (c : ℕ) (t : Text) → OnlyLinks s (greet_topic s c t)
  unfolding greet_topic
  greet_topic-OnlyLinks s c [] = OnlyLinks-refl s
  greet_topic-OnlyLinks s c (x ∷ t) = send_system-OnlyLinks s c _

  greet_history-OnlyLinks :
      (s : Server) (c : ℕ) (name : Text) (l : List Text) → OnlyLinks s (greet_history s c name l)
  unfolding greet_history
  greet_history-OnlyLinks s c name [] = OnlyLinks-refl s
  greet_history-OnlyLinks s c name (x ∷ l) =
      OnlyLinks-trans (send_system-OnlyLinks s c _) (send_lines-OnlyLinks _ c name (x ∷ l))

  pub greet-OnlyLinks : (s : Server) (c room : ℕ) → OnlyLinks s (greet s c room)
  unfolding greet
  greet-OnlyLinks s c room = OnlyLinks-trans (send_system-OnlyLinks s c _) (
      OnlyLinks-trans (greet_topic-OnlyLinks _ c (s.room_at room).topic)
        (greet_history-OnlyLinks _ c (s.room_at room).name _))

  pub announce_join-OnlyLinks :
      (b : Bool) (s : Server) (c room : ℕ) → OnlyLinks s (announce_join b s c room)
  unfolding announce_join
  announce_join-OnlyLinks false s c room = OnlyLinks-refl s
  announce_join-OnlyLinks true s c room = broadcast-OnlyLinks s room _ (some c)
