-- ===== src/Chat/Loops.antt =====
-- The goroutines of one session of internal/chat/client.go: its three loops, and the goroutines that
-- send to it. A step is a shared access, but taking a message from the buffer and writing it are one
-- step, and so are scanning a line and `touch`. What a line makes the server do is left to the
-- senders: which goroutine sends what, and when, is open.
pub mod Invariant
pub mod Measure
pub mod Ending
pub mod Panics
pub mod Coarse
use livechat_server.Base.{
  ℕ, suc, ◌+◌, ◌<◌, ◌≤◌, ◌≡◌, Bool, true, false, List, [], ◌∷◌, ◌++◌, Text, ltb, if◌then◌else◌, ℤ,
  to_nat, length, is_nonpos,
}
use livechat_server.Strings.{trim_line_end}
use livechat_server.Chat.Client.{Link, as_line}

-- How far the body of `once` in `shutdown` is.
pub data Stage : Type 0 where
  unused entered done_closed send_closed conn_closed finished : Stage

-- Where a loop is. `closing` is its last call of `shutdown`, `quitting` that of /quit, after which it
-- goes on.
pub data Loop : Type 0 where
  running quitting closing ended : Loop

-- The timer runs, has sent the time to its channel, or the time was taken from there.
pub data Timer : Type 0 where
  armed fired spent : Timer

-- Why the program has ended in a panic, if it has.
pub data Panic : Type 0 where
  calm closed_twice sent_on_closed : Panic

pub record Session : Type 0 where
  -- the channel `send`
  pub buffer : List Text
  pub send_is_closed : Bool
  -- the channel `done`
  pub done : Bool
  pub conn_open : Bool
  -- what was written to the connection
  pub written : List Text
  -- how often removeClient was called
  pub removed : ℕ
  pub once : Stage
  -- the messages of the goroutines that are in `Send`, behind its look at `done`
  pub sending : List Text
  pub writer : Loop
  pub watcher : Loop
  pub reader : Loop
  -- the lines that have come and are not read
  pub lines : List Text
  pub timer : Timer
  -- whether something waits in the channel `idleReset`
  pub idle_reset : Bool
  pub panic : Panic
  -- all that was ever put into the buffer
  pub accepted : List Text

-- The session when `start` has started its loops.
abbrev pub new_session : ℤ → Session
new_session idle_timeout = record {
  buffer = [];
  send_is_closed = false;
  done = false;
  conn_open = true;
  written = [];
  removed = 0;
  once = unused;
  sending = [];
  writer = running;
  watcher = if is_nonpos idle_timeout then ended else running;
  reader = running;
  lines = [];
  timer = armed;
  idle_reset = false;
  panic = calm;
  accepted = [];
}

-- A loop that waits for the body of `once`, or runs it.
pub data Waits : Loop → Type 0 where
  at_quit : Waits quitting
  at_close : Waits closing

-- One step, with the capacity of `send`.
pub data Step (capacity : ℤ) (s : Session) : Session → Type 0 where
  -- Send
  pass :
      (message : Text)
      → s.done ≡ false
      → Step capacity s (record s { sending = trim_line_end message ∷ s.sending })
  put :
      (m : Text) (before after : List Text)
      → s.sending ≡ before ++ m ∷ after
      → s.send_is_closed ≡ false
      → ltb (length s.buffer) (to_nat capacity) ≡ true
      → Step capacity s (record s {
        sending = before ++ after;
        buffer = s.buffer ++ m ∷ [];
        accepted = s.accepted ++ m ∷ [];
      })
  drop :
      (m : Text) (before after : List Text)
      → s.sending ≡ before ++ m ∷ after
      → s.send_is_closed ≡ false
      → ltb (length s.buffer) (to_nat capacity) ≡ false
      → Step capacity s (record s { sending = before ++ after })
  send_on_closed :
      (m : Text) (before after : List Text)
      → s.sending ≡ before ++ m ∷ after
      → s.send_is_closed ≡ true
      → Step capacity s (record s { sending = before ++ after; panic = sent_on_closed })
  -- shutdown: to close a closed channel panics
  enter_writer : Waits s.writer → s.once ≡ unused → Step capacity s (record s { once = entered })
  enter_watcher : Waits s.watcher → s.once ≡ unused → Step capacity s (record s { once = entered })
  enter_reader : Waits s.reader → s.once ≡ unused → Step capacity s (record s { once = entered })
  close_done :
      s.once ≡ entered
      → Step capacity s (record s {
        once = done_closed;
        done = true;
        panic = if s.done then closed_twice else s.panic;
      })
  close_send :
      s.once ≡ done_closed
      → Step capacity s (record s {
        once = send_closed;
        send_is_closed = true;
        panic = if s.send_is_closed then closed_twice else s.panic;
      })
  close_conn :
      s.once ≡ send_closed → Step capacity s (record s { once = conn_closed; conn_open = false })
  remove_client :
      s.once ≡ conn_closed → Step capacity s (record s { once = finished; removed = s.removed + 1 })
  -- writeLoop
  writer_sees_done :
      s.writer ≡ running → s.done ≡ true → Step capacity s (record s { writer = ended })
  writer_sees_end :
      s.writer ≡ running
      → s.buffer ≡ []
      → s.send_is_closed ≡ true
      → Step capacity s (record s { writer = ended })
  writes :
      (m : Text) (rest : List Text)
      → s.writer ≡ running
      → s.buffer ≡ m ∷ rest
      → s.conn_open ≡ true
      → Step capacity s (record s { buffer = rest; written = s.written ++ as_line m ∷ [] })
  write_fails :
      (m : Text) (rest : List Text)
      → s.writer ≡ running
      → s.buffer ≡ m ∷ rest
      → Step capacity s (record s { buffer = rest; writer = closing })
  writer_leaves :
      s.writer ≡ closing → s.once ≡ finished → Step capacity s (record s { writer = ended })
  -- idleWatcher
  expires : s.timer ≡ armed → Step capacity s (record s { timer = fired })
  watcher_sees_done :
      s.watcher ≡ running → s.done ≡ true → Step capacity s (record s { watcher = ended })
  idles :
      s.watcher ≡ running
      → s.timer ≡ fired
      → Step capacity s (record s { timer = spent; watcher = closing })
  resets_running :
      s.watcher ≡ running
      → s.idle_reset ≡ true
      → s.timer ≡ armed
      → Step capacity s (record s { idle_reset = false })
  -- the time is taken from the timer's channel before the timer starts anew
  resets_fired :
      s.watcher ≡ running
      → s.idle_reset ≡ true
      → s.timer ≡ fired
      → Step capacity s (record s { idle_reset = false; timer = armed })
  watcher_leaves :
      s.watcher ≡ closing → s.once ≡ finished → Step capacity s (record s { watcher = ended })
  -- readLoop: a line comes, is read with `touch`, and may be /quit; the scanner may end at any time
  comes :
      (line : Text)
      → s.conn_open ≡ true
      → Step capacity s (record s { lines = s.lines ++ line ∷ [] })
  reads :
      (line : Text) (rest : List Text)
      → s.reader ≡ running
      → s.lines ≡ line ∷ rest
      → Step capacity s (record s { lines = rest; idle_reset = true })
  quits :
      (line : Text) (rest : List Text)
      → s.reader ≡ running
      → s.lines ≡ line ∷ rest
      → Step capacity s (record s { lines = rest; idle_reset = true; reader = quitting })
  reader_returns :
      s.reader ≡ quitting → s.once ≡ finished → Step capacity s (record s { reader = running })
  scan_ends : s.reader ≡ running → Step capacity s (record s { reader = closing })
  reader_leaves :
      s.reader ≡ closing → s.once ≡ finished → Step capacity s (record s { reader = ended })

-- A number of accesses, one after the other; a panic is the last.
pub data Steps (capacity : ℤ) (s : Session) : ℕ → Session → Type 0 where
  here : Steps capacity s 0 s
  next :
      {n : ℕ} {t u : Session}
      → Steps capacity s n t
      → t.panic ≡ calm
      → Step capacity t u
      → Steps capacity s (suc n) u
