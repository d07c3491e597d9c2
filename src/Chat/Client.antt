-- ===== src/Chat/Client.antt =====
-- internal/chat/client.go: what a session keeps. The struct is split in two: `Client` is guarded by
-- its mutex, `Link` is its `send` channel, its `done` channel and its connection.
use livechat_server.Strings.Decimal.{dec, dec4, dec_injective}
use livechat_server.Base.{
  ap, drop, codes, ℕ, ◌≡◌, Bool, true, false, List, [], ◌∷◌, ◌++◌, Text, ltb, ◌==◌, if◌then◌else◌,
  ℤ, to_nat, length,
}
use livechat_server.Strings.{trim_line_end}
use livechat_server.Chat.Room.{Room}

pub record Client : Type 0 where
  pub id : Text
  pub name : Text
  pub room_key : Text
  pub room_display : Text

pub record Link : Type 0 where
  -- what waits in the channel `send`
  pub buffer : List Text
  -- `done` and `send` are closed
  pub done : Bool
  pub conn_open : Bool
  -- what was written to the connection
  pub written : List Text

-- `fmt.Sprintf("client-%d", seq)` and `fmt.Sprintf("guest-%04d", seq)`.
unfoldable pub client_id : ℕ → Text
client_id seq = codes "client-" ++ dec seq

unfoldable pub guest_name : ℕ → Text
guest_name seq = codes "guest-" ++ dec4 seq

-- The ids of two sequence numbers differ.
pub client_id_injective : (m n : ℕ) → client_id m ≡ client_id n → m ≡ n
unfolding client_id
client_id_injective m n h = dec_injective m n (ap (drop 7) h)

unfoldable pub new_client : Text → Text → Client
new_client id name = record { id = id; name = name; room_key = []; room_display = [] }

abbrev pub new_link : Link
new_link = record { buffer = []; done = false; conn_open = true; written = [] }

-- `Send`: nothing after the shutdown, and a full buffer drops the message.
unfoldable pub send_link : ℤ → Link → Text → Link
send_link capacity l message = record l {
  buffer =
      if l.done
      then l.buffer
      else if ltb (length l.buffer) (to_nat capacity)
      then l.buffer ++ trim_line_end message ∷ []
      else l.buffer;
}

-- The effect of `shutdown` on the session itself: the channels and the connection are closed.
unfoldable pub close_link : Link → Link
close_link l = record l { done = true; conn_open = false }

-- `strings.HasSuffix(msg, "\n")`.
abbrev ends_line : Text → Bool
ends_line [] = false
ends_line (c ∷ []) = c == 10
ends_line (c ∷ d ∷ s) = ends_line (d ∷ s)

abbrev pub as_line : Text → Text
as_line s = if ends_line s then s else s ++ 10 ∷ []

unfoldable pub write_first : Link → List Text → Link
write_first l [] = l
write_first l (m ∷ rest) = record l { buffer = rest; written = l.written ++ as_line m ∷ [] }

-- A round of `writeLoop` whose write succeeds: the oldest message, as a line.
unfoldable pub write_link : Link → Link
unfolding write_first
write_link l = if l.done then l else write_first l l.buffer

unfoldable pub set_client_name : Client → Text → Client
set_client_name c name = record c { name = name }

unfoldable pub set_room : Client → Room → Client
set_room c r = record c { room_key = r.key; room_display = r.name }
