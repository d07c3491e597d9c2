-- ===== src/Chat/Loops/Measure.antt =====
-- How many accesses the goroutines of a session of internal/chat/client.go have left when it is shut.
use livechat_server.Base.{
  ℕ, ◌+◌, ◌*◌, ◌<◌, ◌≤◌, ◌≡◌, Bool, true, false, List, [], ◌∷◌, ◌++◌, Text, ℤ, length, arith,
  length-append,
}
use livechat_server.Chat.Loops.{
  Stage, Loop, Timer, Session, Step, Steps, unused, entered, done_closed, send_closed, conn_closed,
  finished, running, quitting, closing, ended, armed, here, next,
}

abbrev stage_left : Stage → ℕ
stage_left unused = 5
stage_left entered = 4
stage_left done_closed = 3
stage_left send_closed = 2
stage_left conn_closed = 1
stage_left finished = 0

abbrev loop_left : Loop → ℕ
loop_left quitting = 3
loop_left running = 2
loop_left closing = 1
loop_left ended = 0

abbrev timer_left : Timer → ℕ
timer_left armed = 1
timer_left _ = 0

abbrev reset_left : Bool → ℕ
reset_left true = 2
reset_left false = 0

-- How many accesses may be left.
abbrev pub steps_left : Session → ℕ
steps_left s =
    3 * length s.sending
    + 2 * length s.buffer
    + 4 * length s.lines
    + stage_left s.once
    + loop_left s.writer
    + loop_left s.watcher
    + loop_left s.reader
    + timer_left s.timer
    + reset_left s.idle_reset

-- The channel `done` and the connection are closed.
abbrev pub IsShut : Session → Type 0
IsShut s = (s.done ≡ true) × (s.conn_open ≡ false)

length-middle :
    (l before after : List Text) (m : Text)
    → l ≡ before ++ m ∷ after
    → length l ≡ length (before ++ after) + 1
length-middle l before after m e =
    rw e (omega (arith, length-append before (m ∷ after), length-append before after))

Step-IsShut : {capacity : ℤ} {s t : Session} → Step capacity s t → IsShut s → IsShut t
Step-IsShut (Step.close_done e) h = ground arith
Step-IsShut (Step.close_conn e) h = ground arith
Step-IsShut mv h = h

pub Step-left :
    {capacity : ℤ} {s t : Session} → Step capacity s t → IsShut s → steps_left t < steps_left s
Step-left {s = s} (Step.put m b a e c r) h =
    ground (arith, length-middle s.sending b a m e, length-append s.buffer (m ∷ []))
Step-left {s = s} (Step.drop m b a e c r) h = ground (arith, length-middle s.sending b a m e)
Step-left {s = s} (Step.send_on_closed m b a e c) h =
    ground (arith, length-middle s.sending b a m e)
Step-left (Step.pass m d) h = ground arith
Step-left (Step.enter_writer w e) h = ground arith
Step-left (Step.enter_watcher w e) h = ground arith
Step-left (Step.enter_reader w e) h = ground arith
Step-left (Step.close_done e) h = ground arith
Step-left (Step.close_send e) h = ground arith
Step-left (Step.close_conn e) h = ground arith
Step-left (Step.remove_client e) h = ground arith
Step-left (Step.writer_sees_done w d) h = ground arith
Step-left (Step.writer_sees_end w e c) h = ground arith
Step-left (Step.writes m rest w e c) h = ground arith
Step-left (Step.write_fails m rest w e) h = ground arith
Step-left (Step.writer_leaves w o) h = ground arith
Step-left (Step.expires e) h = ground arith
Step-left (Step.watcher_sees_done w d) h = ground arith
Step-left (Step.idles w e) h = ground arith
Step-left (Step.resets_running w r e) h = ground arith
Step-left (Step.resets_fired w r e) h = ground arith
Step-left (Step.watcher_leaves w o) h = ground arith
Step-left (Step.comes line o) h = ground arith
Step-left (Step.reads line rest w e) h = ground arith
Step-left (Step.quits line rest w e) h = ground arith
Step-left (Step.reader_returns w o) h = ground arith
Step-left (Step.scan_ends w) h = ground arith
Step-left (Step.reader_leaves w o) h = ground arith

pub Steps-left :
    {capacity : ℤ} {s : Session} {n : ℕ} {t : Session}
    → IsShut s
    → Steps capacity s n t
    → IsShut t × (n + steps_left t ≤ steps_left s)
Steps-left h here = (h, omega arith)
Steps-left h (next r c mv) =
    let (shut, left) = Steps-left h r in
    (Step-IsShut mv shut, omega (arith, left, Step-left mv shut))
