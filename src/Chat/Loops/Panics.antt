-- ===== src/Chat/Loops/Panics.antt =====
-- How a session of internal/chat/client.go ends the program.
use livechat_server.Base.{
  ◌≡◌, refl, ◌∙◌, ap, false, List, ◌∷◌, ◌++◌, Text, ℤ, ℕ, arith, ◌<◌, ◌≤◌, ◌≢◌, true, length,
}
use livechat_server.Chat.Loops.{
  Session, Step, Steps, Panic, closed_twice, here, next, new_session, sent_on_closed, at_close,
  calm, unused, running,
}
use livechat_server.Chat.Loops.Invariant.{
  done_at, send_closed_at, HasFlags, Steps-Inv, new_session-Inv,
}

-- In every state that a run leads to: where a goroutine is in `Send` with a message, behind its look
-- at `done`, while nobody has called `shutdown` and the reader scans lines, the end of the reader's
-- lines can end the program: in five more accesses the reader closes `send`, and this goroutine's
-- send, whatever its message, is a panic. The other goroutines in `Send` are still there.
pub send_panics :
    (capacity idle_timeout : ℤ) (n : ℕ) (s : Session) (m : Text) (before after : List Text)
    → Steps capacity (new_session idle_timeout) n s
    → s.panic ≡ calm
    → s.once ≡ unused
    → s.reader ≡ running
    → s.sending ≡ before ++ m ∷ after
    → (t : Session) × Steps capacity s 5 t
      × (t.sending ≡ before ++ after)
      × (t.panic ≡ sent_on_closed)
send_panics capacity idle_timeout n s m before after ran quiet fresh reads sends =
    let flags : HasFlags s = (Steps-Inv (new_session-Inv capacity idle_timeout) ran).flags in
    let open_done : s.done ≡ false = flags.done_is ∙ ap done_at fresh in
    let open_send : s.send_is_closed ≡ false = flags.send_is ∙ ap send_closed_at fresh in
    (
      _,
      next
          (next
            (next
              (next (next here quiet (Step.scan_ends reads)) quiet
                (Step.enter_reader at_close fresh))
              quiet (Step.close_done refl))
            (rw open_done quiet) (Step.close_send refl))
          (rw (open_done, open_send) quiet) (Step.send_on_closed m before after sends refl),
      refl,
      refl,
    )

-- Where the channel `send` is closed it stays so, and while nothing panics nobody leaves `Send`.
abbrev HoldsBack : Session → Session → Type 0
HoldsBack s t =
    (t.send_is_closed ≡ true) × (t.panic ≢ sent_on_closed → length s.sending ≤ length t.sending)

Step-HoldsBack :
    {capacity : ℤ} (s : Session) {t u : Session}
    → Step capacity t u
    → t.panic ≡ calm
    → HoldsBack s t
    → HoldsBack s u
Step-HoldsBack s (Step.pass message d) q h = (h.0, λ n. ground (arith, h.1))
Step-HoldsBack s (Step.put m b a e c r) q h = absurd (ground (arith, h.0))
Step-HoldsBack s (Step.drop m b a e c r) q h = absurd (ground (arith, h.0))
Step-HoldsBack s (Step.send_on_closed m b a e c) q h = (h.0, λ n. absurd (n refl))
Step-HoldsBack s (Step.close_send e) q h = (refl, λ n. h.1 (λ k. cc))
Step-HoldsBack s (Step.close_done e) q h = (h.0, λ n. h.1 (λ k. cc))
Step-HoldsBack s mv q h = ground arith

Steps-HoldsBack :
    {capacity : ℤ} (s : Session) {t : Session} {n : ℕ}
    → s.send_is_closed ≡ true
    → Steps capacity s n t
    → HoldsBack s t
Steps-HoldsBack s e here = (e, λ n. omega arith)
Steps-HoldsBack s e (next r q mv) = Step-HoldsBack s mv q (Steps-HoldsBack s e r)

panics_unless : (p : Panic) → ¬ (p ≢ sent_on_closed) → p ≡ sent_on_closed
panics_unless calm h = absurd (h (λ e. cc))
panics_unless closed_twice h = absurd (h (λ e. cc))
panics_unless sent_on_closed h = refl

-- Once the channel `send` is closed, no goroutine comes out of `Send` but by a panic: if after any
-- further accesses fewer goroutines are in `Send`, behind their look at `done`, the program has ended
-- in the panic of a send on a closed channel.
pub closed_send_panics :
    {capacity : ℤ} {s t : Session} {n : ℕ}
    → s.send_is_closed ≡ true
    → Steps capacity s n t
    → length t.sending < length s.sending
    → t.panic ≡ sent_on_closed
closed_send_panics {s = s} {t = t} e r fewer =
    panics_unless t.panic (λ n. absurd (ground (arith, (Steps-HoldsBack s e r).1 n)))
