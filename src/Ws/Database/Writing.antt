-- ===== src/Ws/Database/Writing.antt =====
-- What the rounds of `writeLoop` in internal/ws/conn.go write of what waits.
use livechat_server.Base.{
  ℕ, zero, suc, ◌+◌, ◌<◌, ◌≡◌, refl, List, [], ◌∷◌, ◌++◌, arith, length, length-append, ◌∙◌, sym,
  ap,
}
use mathlib.Core.List.{append_assoc, append-nil}
use livechat_server.Ws.Messages.{Uuid, Event}
use livechat_server.Ws.Hub.{Conn, enqueue, write_conn}
use livechat_server.Ws.Conn.{add_room}

-- Rounds of `writeLoop` whose writes succeed.
abbrev pub write_times : ℕ → Conn → Conn
write_times zero x = x
write_times (suc n) x = write_times n (write_conn x)

-- As many rounds as events wait write all of them, in their order.
write_all :
    (l : List Event) (x : Conn) → x.send ≡ l → (write_times (length l) x).written ≡ x.written ++ l
unfolding write_conn
write_all [] x e = sym (append-nil x.written)
write_all (a ∷ l) x e =
    write_all l (write_conn x) (rw (e, write_conn) refl)
    ∙ (ap (λ v. v ++ l) (written_one a l x e) ∙ append_assoc x.written (a ∷ []) l)
  where
    written_one :
        (a : Event) (l : List Event) (x : Conn)
        → x.send ≡ a ∷ l
        → (write_conn x).written ≡ x.written ++ a ∷ []
    written_one a l x e = rw (e, write_conn) refl

enqueue-append :
    (e : Event) (x : Conn) → length x.send < 64 → enqueue e x ≡ record x { send = x.send ++ e ∷ [] }
unfolding enqueue
enqueue-append e x h = ground arith

-- Where two more fit behind what waits, all of it and the two are written in as many rounds.
pub write_two :
    (a b : Event) (room : Uuid) (x : Conn)
    → length x.send < 63
    → (write_times (length x.send + 2) (enqueue b (enqueue a (add_room room x)))).written
      ≡ x.written ++ (x.send ++ a ∷ b ∷ [])
unfolding add_room
write_two a b room x h =
    rw (both, count)
      (write_all ((x.send ++ a ∷ []) ++ b ∷ []) _ refl
        ∙ ap (λ l. x.written ++ l) (append_assoc x.send (a ∷ []) (b ∷ [])))
  where
    joined : Conn
    joined = record (add_room room x) { send = x.send ++ a ∷ [] }

    both :
        enqueue b (enqueue a (add_room room x))
        ≡ record joined { send = (x.send ++ a ∷ []) ++ b ∷ [] }
    both =
        ap (enqueue b) (enqueue-append a (add_room room x) (omega arith))
        ∙ enqueue-append b joined (ground (arith, length-append x.send (a ∷ [])))

    count : length x.send + 2 ≡ length ((x.send ++ a ∷ []) ++ b ∷ [])
    count = ground (arith, length-append (x.send ++ a ∷ []) (b ∷ []), length-append x.send (a ∷ []))
