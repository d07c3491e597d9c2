-- ===== src/Chat/Loops/Ending.antt =====
-- How the goroutines of a session end.
use livechat_server.Base.{
  ℕ, zero, suc, ◌+◌, ◌≤◌, ◌≡◌, ◌≢◌, ◌⊎◌, inl, inr, refl, false, List, [], ◌∷◌, Text, ℤ, arith, ◌∙◌,
  sym,
}
use livechat_server.Chat.Loops.{
  Stage, Loop, Session, Step, Steps, conn_closed, calm, closed_twice, sent_on_closed, Panic,
  finished, running, quitting, closing, ended, here, next, new_session,
}
use livechat_server.Chat.Loops.Measure.{steps_left, IsShut, Step-left, Steps-left}
use livechat_server.Chat.Loops.Invariant.{conn_open_at, Inv, Steps-Inv, new_session-Inv}

-- All loops have ended, nobody sends, and the server has let the client go.
pub record IsOver (s : Session) : Type 0 where
  pub let_go : s.once ≡ finished
  pub writer_over : s.writer ≡ ended
  pub watcher_over : s.watcher ≡ ended
  pub reader_over : s.reader ≡ ended
  pub silent : s.sending ≡ []

Loop-cases : (l : Loop) → (l ≡ running) ⊎ (l ≡ quitting) ⊎ (l ≡ closing) ⊎ (l ≡ ended)
Loop-cases running = inl refl
Loop-cases quitting = inr (inl refl)
Loop-cases closing = inr (inr (inl refl))
Loop-cases ended = inr (inr (inr refl))

pub List-cases : (l : List Text) → (l ≡ []) ⊎ ((m : Text) × (rest : List Text) × (l ≡ m ∷ rest))
List-cases [] = inl refl
List-cases (m ∷ rest) = inr (m, rest, refl)

shut_stage : (o : Stage) → conn_open_at o ≡ false → (o ≡ conn_closed) ⊎ (o ≡ finished)
shut_stage o h = ground arith

abbrev CanStep : ℤ → Session → Type 0
CanStep capacity s = (t : Session) × Step capacity s t

module _ (capacity : ℤ) (s : Session) (shut : IsShut s) (v : Inv capacity s) where
  writer_goes : s.once ≡ finished → (s.writer ≡ ended) ⊎ CanStep capacity s
  writer_goes o = elim (Loop-cases s.writer) [
    | inl e ↦ inr (_, Step.writer_sees_done e shut.0)
    | inr (inl e) ↦ absurd (v.roles.0 e)
    | inr (inr (inl e)) ↦ inr (_, Step.writer_leaves e o)
    | inr (inr (inr e)) ↦ inl e
  ]

  watcher_goes : s.once ≡ finished → (s.watcher ≡ ended) ⊎ CanStep capacity s
  watcher_goes o = elim (Loop-cases s.watcher) [
    | inl e ↦ inr (_, Step.watcher_sees_done e shut.0)
    | inr (inl e) ↦ absurd (v.roles.1 e)
    | inr (inr (inl e)) ↦ inr (_, Step.watcher_leaves e o)
    | inr (inr (inr e)) ↦ inl e
  ]

  reader_goes : s.once ≡ finished → (s.reader ≡ ended) ⊎ CanStep capacity s
  reader_goes o = elim (Loop-cases s.reader) [
    | inl e ↦ inr (_, Step.scan_ends e)
    | inr (inl e) ↦ inr (_, Step.reader_returns e o)
    | inr (inr (inl e)) ↦ inr (_, Step.reader_leaves e o)
    | inr (inr (inr e)) ↦ inl e
  ]

  sender_goes : s.once ≡ finished → (s.sending ≡ []) ⊎ CanStep capacity s
  sender_goes o = elim (List-cases s.sending) [
    | inl e ↦ inl e
    | inr (m, rest, e) ↦ inr (_, Step.send_on_closed m [] rest e (v.flags.send_is ∙ rw o))
  ]

  goes_on : IsOver s ⊎ CanStep capacity s
  goes_on = elim (shut_stage s.once (sym v.flags.conn_is ∙ shut.1)) [
    | inl e ↦ inr (_, Step.remove_client e)
    | inr o ↦ elim (writer_goes o) [
      | inr g ↦ inr g
      | inl w ↦ elim (watcher_goes o) [
        | inr g ↦ inr g
        | inl a ↦ elim (reader_goes o) [
          | inr g ↦ inr g
          | inl r ↦ elim (sender_goes o) [
            | inr g ↦ inr g
            | inl q ↦ inl (record {
              let_go = o;
              writer_over = w;
              watcher_over = a;
              reader_over = r;
              silent = q;
            })
          ]
        ]
      ]
    ]
  ]

Panic-cases : (p : Panic) → (p ≡ calm) ⊎ (p ≢ calm)
Panic-cases calm = inl refl
Panic-cases closed_twice = inr (λ e. cc)
Panic-cases sent_on_closed = inr (λ e. cc)

-- A run from a session to its end, or to a panic.
abbrev pub CanFinish : ℤ → Session → Type 0
CanFinish capacity s =
    (m : ℕ) × (u : Session) × Steps capacity s m u × (IsOver u ⊎ (u.panic ≢ calm))

module _ {capacity : ℤ} {s : Session} (shut : IsShut s) (v : Inv capacity s) where
  ends_or_goes :
      {n : ℕ} (t : Session)
      → Steps capacity s n t
      → (IsOver t ⊎ (t.panic ≢ calm)) ⊎ ((t.panic ≡ calm) × CanStep capacity t)
  ends_or_goes t r = elim (goes_on capacity t (Steps-left shut r).0 (Steps-Inv v r)) [
    | inl e ↦ inl (inl e)
    | inr g ↦ elim (Panic-cases t.panic) [ inr p ↦ inl (inr p) | inl c ↦ inr (c, g) ]
  ]

  -- As many further accesses as the bound allows are enough.
  finishes_within :
      {n : ℕ} (left : ℕ) (t : Session)
      → Steps capacity s n t
      → steps_left t ≤ left
      → CanFinish capacity s
  finishes_within {n} zero t r fits = elim (ends_or_goes t r) [
    | inl e ↦ (n, t, r, e)
    | inr (c, (u, mv)) ↦ absurd (omega (arith, fits, Step-left mv (Steps-left shut r).0))
  ]
  finishes_within {n} (suc left) t r fits = elim (ends_or_goes t r) [
    | inl e ↦ (n, t, r, e)
    | inr (c, (u, mv)) ↦
        finishes_within left u (next r c mv)
          (omega (arith, fits, Step-left mv (Steps-left shut r).0))
  ]

-- Once the channel `done` and the connection of a session are closed, its goroutines come to an end in
-- whatever order they take turns: each access uses up some of a bound, and a further one is possible
-- unless all loops have ended, nobody sends, and the server has let the client go. So there is a run
-- to that end, or to a panic.
pub shut_session_ends :
    {k n : ℕ} (capacity idle_timeout : ℤ) (s t : Session)
    → Steps capacity (new_session idle_timeout) k s
    → IsShut s
    → Steps capacity s n t
    → (n + steps_left t ≤ steps_left s)
      × (IsOver t ⊎ ((u : Session) × Step capacity t u))
      × CanFinish capacity s
shut_session_ends capacity idle_timeout s t before shut r =
    let v = Steps-Inv (new_session-Inv capacity idle_timeout) before in
    let (shut', left) = Steps-left shut r in
    (
      left,
      goes_on capacity t shut' (Steps-Inv v r),
      finishes_within shut v (steps_left s) s here (omega arith),
    )
