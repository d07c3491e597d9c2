-- ===== src/Chat/Loops/Invariant.antt =====
-- What holds between any two accesses of the goroutines of a session.
use livechat_server.Base.{
  ℕ, ◌≤◌, ◌≡◌, ◌≢◌, refl, Bool, true, false, List, [], ◌∷◌, ◌++◌, Text, ℤ, to_nat, length, arith,
  map, length-append, ap, ◌∙◌, sym,
}
use mathlib.Core.List.{map-append, append_assoc}
use livechat_server.Chat.Client.{as_line}
use livechat_server.Chat.Loops.{
  Stage, Session, Step, Steps, unused, entered, send_closed, conn_closed, finished, running,
  quitting, spent, here, next, new_session, closed_twice,
}

-- What the body of `once` has done.
abbrev pub done_at : Stage → Bool
done_at unused = false
done_at entered = false
done_at _ = true

abbrev pub send_closed_at : Stage → Bool
send_closed_at send_closed = true
send_closed_at conn_closed = true
send_closed_at finished = true
send_closed_at _ = false

abbrev pub conn_open_at : Stage → Bool
conn_open_at conn_closed = false
conn_open_at finished = false
conn_open_at _ = true

abbrev pub removed_at : Stage → ℕ
removed_at finished = 1
removed_at _ = 0

-- The flags are what the body of `once` has made them, and no close was a second one.
pub record HasFlags (s : Session) : Type 0 where
  pub done_is : s.done ≡ done_at s.once
  pub send_is : s.send_is_closed ≡ send_closed_at s.once
  pub conn_is : s.conn_open ≡ conn_open_at s.once
  pub removed_is : s.removed ≡ removed_at s.once
  pub once_closed : s.panic ≢ closed_twice

Step-HasFlags : {capacity : ℤ} {s t : Session} → Step capacity s t → HasFlags s → HasFlags t
Step-HasFlags (Step.close_done e) f = ground arith
Step-HasFlags (Step.close_send e) f = ground arith
Step-HasFlags (Step.close_conn e) f = ground arith
Step-HasFlags (Step.remove_client e) f = ground arith
Step-HasFlags (Step.enter_writer w e) f = ground arith
Step-HasFlags (Step.enter_watcher w e) f = ground arith
Step-HasFlags (Step.enter_reader w e) f = ground arith
Step-HasFlags (Step.send_on_closed m b a e c) f = ground arith
Step-HasFlags mv f = ground arith

-- While the watcher runs, its timer runs or has a time in its channel.
abbrev pub HasTime : Session → Type 0
HasTime s = s.watcher ≡ running → s.timer ≢ spent

Step-HasTime : {capacity : ℤ} {s t : Session} → Step capacity s t → HasTime s → HasTime t
Step-HasTime (Step.idles w e) f = λ h. cc
Step-HasTime (Step.expires e) f = λ h k. cc
Step-HasTime (Step.resets_running w r e) f = λ h k. cc
Step-HasTime (Step.resets_fired w r e) f = λ h k. cc
Step-HasTime mv f = ground arith

-- Only the reader runs commands.
abbrev pub HasRoles : Session → Type 0
HasRoles s = (s.writer ≢ quitting) × (s.watcher ≢ quitting)

Step-HasRoles : {capacity : ℤ} {s t : Session} → Step capacity s t → HasRoles s → HasRoles t
Step-HasRoles (Step.writer_sees_done w d) f = (λ h. cc, f.1)
Step-HasRoles (Step.writer_sees_end w e c) f = (λ h. cc, f.1)
Step-HasRoles (Step.write_fails m rest w e) f = (λ h. cc, f.1)
Step-HasRoles (Step.writer_leaves w o) f = (λ h. cc, f.1)
Step-HasRoles (Step.watcher_sees_done w d) f = (f.0, λ h. cc)
Step-HasRoles (Step.idles w e) f = (f.0, λ h. cc)
Step-HasRoles (Step.watcher_leaves w o) f = (f.0, λ h. cc)
Step-HasRoles mv f = f

abbrev pub Fits : ℤ → Session → Type 0
Fits capacity s = length s.buffer ≤ to_nat capacity

Step-Fits : {capacity : ℤ} {s t : Session} → Step capacity s t → Fits capacity s → Fits capacity t
Step-Fits {s = s} (Step.put m b a e c r) f = ground (arith, length-append s.buffer (m ∷ []))
Step-Fits (Step.writes m rest w e c) f = ground arith
Step-Fits (Step.write_fails m rest w e) f = ground arith
Step-Fits mv f = ground arith

-- The lines that were written are the first of what was put into the buffer, in its order; while the
-- writer runs, the others wait in the buffer.
pub record IsInOrder (s : Session) : Type 0 where
  pub rest : List Text
  pub split : map as_line s.accepted ≡ s.written ++ rest
  pub waiting : s.writer ≡ running → rest ≡ map as_line s.buffer

Step-IsInOrder : {capacity : ℤ} {s t : Session} → Step capacity s t → IsInOrder s → IsInOrder t
Step-IsInOrder {s = s} (Step.put m b a e c r) f = record {
  rest = f.rest ++ as_line m ∷ [];
  split =
      map-append as_line s.accepted (m ∷ [])
      ∙ (ap (λ l. l ++ as_line m ∷ []) f.split ∙ append_assoc s.written f.rest (as_line m ∷ []));
  waiting =
      λ h. ap (λ l. l ++ as_line m ∷ []) (f.waiting h) ∙ sym (map-append as_line s.buffer (m ∷ []));
}
Step-IsInOrder {s = s} (Step.writes m rest w e c) f = record {
  rest = map as_line rest;
  split =
      f.split
      ∙ (ap (λ l. s.written ++ l) (f.waiting w ∙ ap (map as_line) e)
          ∙ sym (append_assoc s.written (as_line m ∷ []) (map as_line rest)));
  waiting = λ h. refl;
}
Step-IsInOrder (Step.write_fails m rest w e) f = record {
  rest = f.rest;
  split = f.split;
  waiting = λ h. absurd (ground arith);
}
Step-IsInOrder (Step.writer_sees_done w d) f = record {
  rest = f.rest;
  split = f.split;
  waiting = λ h. cc;
}
Step-IsInOrder (Step.writer_sees_end w e c) f = record {
  rest = f.rest;
  split = f.split;
  waiting = λ h. cc;
}
Step-IsInOrder (Step.writer_leaves w o) f = record {
  rest = f.rest;
  split = f.split;
  waiting = λ h. cc;
}
Step-IsInOrder mv f = record { rest = f.rest; split = f.split; waiting = f.waiting }

pub record Inv (capacity : ℤ) (s : Session) : Type 0 where
  pub flags : HasFlags s
  pub time : HasTime s
  pub roles : HasRoles s
  pub fits : Fits capacity s
  pub in_order : IsInOrder s

Step-Inv : {capacity : ℤ} {s t : Session} → Step capacity s t → Inv capacity s → Inv capacity t
Step-Inv mv v = record {
  flags = Step-HasFlags mv v.flags;
  time = Step-HasTime mv v.time;
  roles = Step-HasRoles mv v.roles;
  fits = Step-Fits mv v.fits;
  in_order = Step-IsInOrder mv v.in_order;
}

pub Steps-Inv :
    {capacity : ℤ} {s : Session} {n : ℕ} {t : Session}
    → Inv capacity s
    → Steps capacity s n t
    → Inv capacity t
Steps-Inv v here = v
Steps-Inv v (next r c mv) = Step-Inv mv (Steps-Inv v r)

pub new_session-Inv : (capacity idle_timeout : ℤ) → Inv capacity (new_session idle_timeout)
new_session-Inv capacity idle_timeout = record {
  flags = ground arith;
  time = λ h k. cc;
  roles = (λ h. cc, ground arith);
  fits = omega arith;
  in_order = record { rest = []; split = refl; waiting = λ h. refl };
}

-- However the goroutines of a session take turns: removeClient is called at most once, and only when
-- both channels and the connection are closed, and no channel is closed twice.
pub shutdown_once :
    {n : ℕ} (capacity idle_timeout : ℤ) (s : Session)
    → Steps capacity (new_session idle_timeout) n s
    → (s.removed ≤ 1)
      × (s.removed ≡ 1 → (s.done ≡ true) × (s.send_is_closed ≡ true) × (s.conn_open ≡ false))
      × (s.panic ≢ closed_twice)
shutdown_once capacity idle_timeout s r =
    let f = (Steps-Inv (new_session-Inv capacity idle_timeout) r).flags in ground arith

-- However the goroutines of a session take turns, the connection has got the first of the messages
-- that were accepted, each as a line and in their order, and the buffer never holds more than its
-- capacity.
pub written_in_order :
    {n : ℕ} (capacity idle_timeout : ℤ) (s : Session)
    → Steps capacity (new_session idle_timeout) n s
    → ((rest : List Text) × (map as_line s.accepted ≡ s.written ++ rest))
      × (length s.buffer ≤ to_nat capacity)
written_in_order capacity idle_timeout s r =
    let v = Steps-Inv (new_session-Inv capacity idle_timeout) r in
    ((v.in_order.rest, v.in_order.split), v.fits)
