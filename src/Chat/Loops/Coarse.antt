-- ===== src/Chat/Loops/Coarse.antt =====
-- What Chat/Client does to a session at once is a run of the session's goroutines.
use livechat_server.Base.{
  ℕ, suc, ◌+◌, ◌≡◌, ◌⊎◌, inl, inr, refl, ap, ◌∙◌, true, false, List, [], ◌∷◌, Text, ltb, ℤ, to_nat,
  length, arith, Bool-cases, if◌then◌else◌,
}
use livechat_server.Strings.{trim_line_end}
use livechat_server.Chat.Client.{Link, new_link, send_link, close_link, write_link, write_first}
use livechat_server.Chat.Loops.Ending.{List-cases}
use livechat_server.Chat.Loops.{
  Session, Step, Steps, unused, finished, running, here, next, new_session, calm, closed_twice,
  closing, at_close,
}

-- `Send`, `shutdown` and a round of `writeLoop`, each from its beginning to its end.
pub data Operation : Type 0 where
  sends : Text → Operation
  shuts writes : Operation

unfoldable pub perform : ℤ → Operation → Link → Link
perform capacity (sends message) l = send_link capacity l message
perform capacity shuts l = if l.done then l else close_link l
perform capacity writes l = write_link l

unfoldable pub perform_all : ℤ → List Operation → Link → Link
perform_all capacity [] l = l
perform_all capacity (o ∷ os) l = perform_all capacity os (perform capacity o l)

-- What Chat/Client sees of a session.
abbrev pub link_of : Session → Link
link_of s = record {
  buffer = s.buffer;
  done = s.done;
  conn_open = s.conn_open;
  written = s.written;
}

-- Nobody is within an operation, and the session is open or shut.
record IsResting (s : Session) : Type 0 where
  quiet : s.panic ≡ calm
  silent : s.sending ≡ []
  open_or_shut :
      ((s.once ≡ unused)
        × (s.done ≡ false)
        × (s.send_is_closed ≡ false)
        × (s.conn_open ≡ true)
        × (s.writer ≡ running)
        × (s.reader ≡ running))
      ⊎ (s.done ≡ true)

-- The session rests again after some accesses, as the operation leaves it.
record Simulation (capacity : ℤ) (o : Operation) (start s : Session) : Type 0 where
  steps : ℕ
  last : Session
  run : Steps capacity start steps last
  resting : IsResting last
  same : link_of last ≡ perform capacity o (link_of s)

module _ (capacity : ℤ) (start s : Session) {n : ℕ} (before : Steps capacity start n s)
    (rests : IsResting s) where
  sends_performs : (message : Text) → Simulation capacity (sends message) start s
  unfolding perform send_link
  sends_performs message = elim rests.open_or_shut [
    | inr d ↦ record { steps = n; last = s; run = before; resting = rests; same = ground arith }
    | inl (o, d, c, i, w, r) ↦
        let passed : Session = record s { sending = trim_line_end message ∷ s.sending } in
        let begun : Steps capacity start (suc n) passed =
          next before rests.quiet (Step.pass message d) in
        elim (Bool-cases (ltb (length s.buffer) (to_nat capacity))) [
          | inl e ↦ record {
            steps = _;
            last = _;
            run = next begun rests.quiet (Step.put (trim_line_end message) [] s.sending refl c e);
            resting = record {
              quiet = rests.quiet;
              silent = rests.silent;
              open_or_shut = inl (o, d, c, i, w, r);
            };
            same = ground arith;
          }
          | inr e ↦ record {
            steps = _;
            last = _;
            run = next begun rests.quiet (Step.drop (trim_line_end message) [] s.sending refl c e);
            resting = record {
              quiet = rests.quiet;
              silent = rests.silent;
              open_or_shut = inl (o, d, c, i, w, r);
            };
            same = ground arith;
          }
        ]
  ]

  -- The reader shuts the session.
  shut : Session
  shut = record s {
    reader = closing;
    once = finished;
    done = true;
    send_is_closed = true;
    conn_open = false;
    removed = s.removed + 1;
    panic = if s.send_is_closed then closed_twice else if s.done then closed_twice else s.panic;
  }

  shut_run :
      s.done ≡ false
      → s.send_is_closed ≡ false
      → s.reader ≡ running
      → s.once ≡ unused
      → (k : ℕ) × Steps capacity start k shut
  unfolding shut
  shut_run d c r o =
      let calm_1 : (if s.done then closed_twice else s.panic) ≡ calm = rw d rests.quiet in
      let calm_2 : (if s.send_is_closed
            then closed_twice
            else if s.done
            then closed_twice
            else s.panic)
          ≡ calm =
        rw (c, d) rests.quiet in
      (
        _,
        next
            (next
              (next
                (next
                  (next (next before rests.quiet (Step.scan_ends r)) rests.quiet
                    (Step.enter_reader at_close o))
                  rests.quiet (Step.close_done refl))
                calm_1 (Step.close_send refl))
              calm_2 (Step.close_conn refl))
            calm_2 (Step.remove_client refl),
      )

  shuts_performs : Simulation capacity shuts start s
  unfolding perform close_link shut
  shuts_performs = elim rests.open_or_shut [
    | inr d ↦ record { steps = n; last = s; run = before; resting = rests; same = ground arith }
    | inl (o, d, c, i, w, r) ↦ record {
      steps = (shut_run d c r o).0;
      last = shut;
      run = (shut_run d c r o).1;
      resting = record {
        quiet = rw (c, d) rests.quiet;
        silent = rests.silent;
        open_or_shut = inr refl;
      };
      same = rw d refl;
    }
  ]

  writes_performs : Simulation capacity writes start s
  unfolding perform write_link write_first
  writes_performs = elim rests.open_or_shut [
    | inr d ↦ record { steps = n; last = s; run = before; resting = rests; same = ground arith }
    | inl (o, d, c, i, w, r) ↦ elim (List-cases s.buffer) [
      | inl e ↦ record { steps = n; last = s; run = before; resting = rests; same = ground arith }
      | inr (m, rest, e) ↦ record {
        steps = _;
        last = _;
        run = next before rests.quiet (Step.writes m rest w e i);
        resting = record {
          quiet = rests.quiet;
          silent = rests.silent;
          open_or_shut = inl (o, d, c, i, w, r);
        };
        same = ground arith;
      }
    ]
  ]

  performs : (o : Operation) → Simulation capacity o start s
  performs (sends message) = sends_performs message
  performs shuts = shuts_performs
  performs writes = writes_performs

performs_all :
    (capacity : ℤ) (start s : Session) {n : ℕ} (os : List Operation)
    → Steps capacity start n s
    → IsResting s
    → (k : ℕ) × (t : Session) × Steps capacity start k t
      × (link_of t ≡ perform_all capacity os (link_of s))
unfolding perform_all
performs_all capacity start s {n} [] before rests = (n, s, before, refl)
performs_all capacity start s (o ∷ os) before rests =
    let p = performs capacity start s before rests o in
    let (k, t, run, same) = performs_all capacity start p.last os p.run p.resting in
    (k, t, run, same ∙ ap (perform_all capacity os) p.same)

-- Whatever is done to a session, as Chat/Client does it at once: the goroutines of a new session have
-- a run that leaves its channels, its connection and what was written to it in the same state.
pub operations_run :
    (capacity idle_timeout : ℤ) (os : List Operation)
    → (n : ℕ) × (s : Session) × Steps capacity (new_session idle_timeout) n s
      × (link_of s ≡ perform_all capacity os new_link)
operations_run capacity idle_timeout os =
    performs_all capacity (new_session idle_timeout) (new_session idle_timeout) os here (record {
      quiet = refl;
      silent = refl;
      open_or_shut = inl (refl, refl, refl, refl, refl, refl);
    })
