-- ===== src/Chat/Room/History.antt =====
-- A room's history is the end of the log of all that was posted.
use Prim.Native.Nat.{min}
use mathlib.Core.List.{append-nil, append_assoc}
use native.Mathlib.Decide.{dec_le}
use livechat_server.Base.{
  ◌==◌, ℕ, suc, ◌-◌, ◌≤◌, ◌≡◌, refl, List, [], ◌∷◌, ◌++◌, Text, arith, length, drop, length-append,
  length-drop, drop-append_le, drop-drop, ℤ, pos, is_nonpos, to_nat, ap, sym, ◌∙◌, true, false,
}
use livechat_server.Strings.{Unicode}
use livechat_server.Chat.Room.{
  Room, append_history, recent_history, last_n, new_room, cut_history, recent_count,
}

module _ {ℓ} {A : Type ℓ} where
  drop-zero_of : (m : ℕ) (xs : List A) → m ≡ 0 → drop m xs ≡ xs
  drop-zero_of m xs h = ap (λ k. drop k xs) h

  pub last_n_of_le : (n : ℕ) (xs : List A) → length xs ≤ n → last_n n xs ≡ xs
  last_n_of_le n xs h = drop-zero_of (length xs - n) xs (omega arith)

  last_n-drop : (n d : ℕ) (xs : List A) → d ≤ length xs - n → last_n n (drop d xs) ≡ last_n n xs
  last_n-drop n d xs h =
      drop-drop (length (drop d xs) - n) d xs
      ∙ ap (λ k. drop k xs) (omega (arith, length-drop d xs))

  -- Keeping the last `n` of a list at each entry is keeping the last `n` of the whole.
  pub last_n-append :
      (n : ℕ) (xs : List A) (ys : List A) → last_n n (last_n n xs ++ ys) ≡ last_n n (xs ++ ys)
  last_n-append n xs ys =
      let d : ℕ = length xs - n in
      ap (last_n n) (sym (drop-append_le d xs ys (omega arith)))
      ∙ last_n-drop n d (xs ++ ys) (omega (arith, length-append xs ys))

  pub last_n-last_n : (m n : ℕ) (xs : List A) → last_n m (last_n n xs) ≡ last_n (min m n) xs
  last_n-last_n m n xs = elim (dec_le m n) [
    | yes h ↦ last_n-drop m (length xs - n) xs (omega arith) ∙ ap (λ k. drop k xs) (omega arith)
    | no h ↦
        last_n_of_le m (last_n n xs) (omega (arith, length-drop (length xs - n) xs))
        ∙ ap (λ k. drop k xs) (omega arith)
  ]

  pub length-last_n : (n : ℕ) (xs : List A) → length (last_n n xs) ≡ min n (length xs)
  length-last_n n xs = omega (arith, length-drop (length xs - n) xs)

cut_history-last_n : (limit : ℤ) (h : List Text) → cut_history limit h ≡ last_n (to_nat limit) h
cut_history-last_n limit h = ground (arith, last_n_of_le (to_nat limit) h)

pub append_history-last_n :
    (r : Room) (entry : Text)
    → is_nonpos r.history_limit ≡ false
    → (append_history r entry).history ≡ last_n (to_nat r.history_limit) (r.history ++ entry ∷ [])
unfolding append_history
append_history-last_n r entry h =
    rw h (cut_history-last_n r.history_limit (r.history ++ entry ∷ []))

-- Posting entries one after the other.
unfoldable pub post_all : Room → List Text → Room
post_all r [] = r
post_all r (e ∷ es) = post_all (append_history r e) es

append_history-limit : (r : Room) (e : Text) → (append_history r e).history_limit ≡ r.history_limit
unfolding append_history
append_history-limit r e = refl

-- With a positive limit, a room that held at most that many entries holds the last of the whole
-- log, up to the limit, whatever is posted.
pub post_all-last_n :
    (r : Room) (es : List Text)
    → is_nonpos r.history_limit ≡ false
    → length r.history ≤ to_nat r.history_limit
    → (post_all r es).history ≡ last_n (to_nat r.history_limit) (r.history ++ es)
unfolding post_all append_history
post_all-last_n r [] h fits =
    rw append-nil (sym (last_n_of_le (to_nat r.history_limit) r.history fits))
post_all-last_n r (e ∷ es) h fits =
    let n : ℕ = to_nat r.history_limit in
    let posted = append_history-last_n r e h in
    let ih =
      post_all-last_n (append_history r e) es h
        (omega (arith, ap length posted, length-last_n n (r.history ++ e ∷ []))) in
    ih
    ∙ ap (λ h. last_n n (h ++ es)) posted
    ∙ last_n-append n (r.history ++ e ∷ []) es
    ∙ ap (last_n n) (append_assoc r.history (e ∷ []) es)

pub length-history-le :
    (r : Room) (e : Text)
    → is_nonpos r.history_limit ≡ false
    → length (append_history r e).history ≤ to_nat r.history_limit
length-history-le r e h = omega (
  arith,
  ap length (append_history-last_n r e h),
  length-last_n (to_nat r.history_limit) (r.history ++ e ∷ []),
)

recent_last_n :
    (k : ℕ) (h : List Text) → last_n (recent_count (pos (suc k)) (length h)) h ≡ last_n (suc k) h
recent_last_n k h = ground (arith, last_n_of_le (length h) h, last_n_of_le (suc k) h)

suc-ne_zero : (n : ℕ) → (suc n == 0) ≡ false
suc-ne_zero n = ground arith

-- What `RecentHistory` returns of a log that was posted to a new room: its last entries, as many
-- as are asked for and kept.
pub recent_history-post_all :
    ⦃u : Unicode⦄
    → (name : Text) (kept : ℕ) (wanted : ℕ) (es : List Text)
    → recent_history (post_all (new_room name (pos (suc kept))) es) (pos (suc wanted))
      ≡ last_n (min (suc wanted) (suc kept)) es
unfolding recent_history new_room
recent_history-post_all name kept wanted es =
    let r = new_room name (pos (suc kept)) in
    let log = post_all-last_n r es (suc-ne_zero kept) (omega arith) in
    recent_last_n wanted (post_all r es).history
    ∙ ap (last_n (suc wanted)) log
    ∙ last_n-last_n (suc wanted) (suc kept) es

-- A limit that is not positive asks for all that is kept.
pub recent_history_all :
    (r : Room) (limit : ℤ) → is_nonpos limit ≡ true → recent_history r limit ≡ r.history
unfolding recent_history
recent_history_all r limit h = rw h (last_n_of_le (length r.history) r.history (omega arith))
