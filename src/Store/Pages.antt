-- ===== src/Store/Pages.antt =====
-- The pages of messages that internal/store/store.go reads.
use mathlib.Core.List.{Perm}
use mathlib.Core.List.Perm
use livechat_server.Base.{
  ℕ, zero, suc, ◌≤◌, ◌≡◌, ◌⊎◌, refl, ap, ◌∙◌, Bool, true, false, List, [], ◌∷◌, ◌++◌, map, keep_if,
  arith, All, text_eq, text_eq_iff, Bool-cases, inl, inr, ℤ, length, drop, length-map,
}
use livechat_server.Strings.Sorting.{sort_by, sort_by-perm, sort_by-IsSorted, IsSorted, All-sort_by}
use livechat_server.Store.Models.{Uuid, Message}
use livechat_server.Store.Queries.{Call, ok, take, query, any, inner_join}
use livechat_server.Store.Rows.{UserRow, MessageRow, Tables, same_user}
use livechat_server.Store.Unique.{keep_if_none, any_imp, NoTwo, All-keep_if}
use livechat_server.Store.Sound.{IsSound, HasParties}
use livechat_server.Store.Messages.{
  page, page_size, newer, sent_message, is_in_room, is_between, list_room_messages, list_dms,
}

module _ {ℓ} {A : Type ℓ} where
  take-append-drop : (n : ℕ) (l : List A) → take n l ++ drop n l ≡ l
  take-append-drop zero l = refl
  take-append-drop (suc n) [] = refl
  take-append-drop (suc n) (x ∷ l) = ap (λ r. x ∷ r) (take-append-drop n l)

  length-take-le : (n : ℕ) (l : List A) → length (take n l) ≤ n
  length-take-le zero l = omega arith
  length-take-le (suc n) [] = omega arith
  length-take-le (suc n) (x ∷ l) = omega (arith, length-take-le n l)

  -- A short first part leaves nothing.
  drop_short : (n : ℕ) (l : List A) → (drop n l ≡ []) ⊎ (length (take n l) ≡ n)
  drop_short zero l = inr refl
  drop_short (suc n) [] = inl refl
  drop_short (suc n) (x ∷ l) = elim (drop_short n l) [ inl e ↦ inl e | inr e ↦ inr (ap suc e) ]

  module _ {κ} {B : Type κ} where
    map-keep_if :
        (f : A → B) (p : B → Bool) (l : List A)
        → map f (keep_if (λ a. p (f a)) l) ≡ keep_if p (map f l)
    unfolding keep_if
    map-keep_if f p [] = refl
    map-keep_if f p (x ∷ l) = ground (arith, map-keep_if f p l)

abbrev is_sender : MessageRow → UserRow → Bool
is_sender m u = text_eq u.user.id m.sender_id

abbrev IsSent : MessageRow × UserRow → Type 0
IsSent r = r.1.user.id ≡ r.0.sender_id

-- Of users with distinct ids exactly one is the sender.
one_sender :
    (m : MessageRow) (l : List UserRow)
    → NoTwo same_user l
    → any (is_sender m) l ≡ true
    → (u : UserRow) × (keep_if (is_sender m) l ≡ u ∷ []) × (u.user.id ≡ m.sender_id)
unfolding keep_if any
one_sender m [] h e = cc
one_sender m (x ∷ l) h e = elim (Bool-cases (is_sender m x)) [
  | inl f ↦
      let others =
        any_imp (is_sender m) (same_user x) l
          (λ u g. ground (
            arith,
            text_eq_iff u.user.id m.sender_id,
            text_eq_iff x.user.id m.sender_id,
            text_eq_iff x.user.id u.user.id,
          ))
          h.0 in
      (
        x,
        ground (arith, keep_if_none (is_sender m) l),
        ground (arith, text_eq_iff x.user.id m.sender_id),
      )
  | inr f ↦ let (u, g, i) = one_sender m l h.1 (ground arith) in (u, ground arith, i)
]

module _ (t : Tables) (s : IsSound t) where
  -- The join with the users keeps each message once, with its sender.
  join_senders :
      (l : List MessageRow)
      → All (HasParties t) l
      → (map (λ r. r.0) (inner_join is_sender l t.users) ≡ l)
        × All IsSent (inner_join is_sender l t.users)
  unfolding inner_join
  join_senders [] h = (refl, tt)
  join_senders (m ∷ l) h =
      let (u, e, i) = one_sender m t.users s.users_unique h.0.0 in
      let (rest, sent) = join_senders l h.1 in rw e (ap (λ r. m ∷ r) rest, (i, sent))

-- A page of at most `size` messages, of those that a test picks: with the `rest` it makes up all of
-- them, each once and with its sender, the newest first; and something is left only by a full page.
pub record IsPage (p : MessageRow → Bool) (size : ℕ) (t : Tables) (l : List Message) : Type 0 where
  pub front : List (MessageRow × UserRow)
  pub rest : List (MessageRow × UserRow)
  pub shown : l ≡ map sent_message front
  pub picked : Perm (map (λ r. r.0) (front ++ rest)) (keep_if p t.messages)
  pub senders : All IsSent (front ++ rest)
  pub newest_first : IsSorted newer (front ++ rest)
  pub bounded : length l ≤ size
  pub full : (rest ≡ []) ⊎ (length l ≡ size)

newer_total : (a b : MessageRow × UserRow) → newer a b ≡ false → newer b a ≡ true
newer_total a b h = ground arith

module _ (p : MessageRow → Bool) (limit : ℤ) (t : Tables) (s : IsSound t) where
  picked_rows : List (MessageRow × UserRow)
  picked_rows = keep_if (λ r. p r.0) (inner_join is_sender t.messages t.users)

  sorted_rows : List (MessageRow × UserRow)
  unfolding picked_rows
  sorted_rows = sort_by newer picked_rows

  sorted_rows-picked : Perm (map (λ r. r.0) sorted_rows) (keep_if p t.messages)
  unfolding sorted_rows picked_rows
  sorted_rows-picked =
      rw
        (← (
          (map-keep_if (λ r. r.0) p (inner_join is_sender t.messages t.users))
          ∙ ap (keep_if p) (join_senders t s t.messages s.messages_held).0))
        (Perm.map (λ r. r.0) (sort_by-perm newer picked_rows))

  sorted_rows-senders : All IsSent sorted_rows
  unfolding sorted_rows picked_rows
  sorted_rows-senders = All-sort_by newer IsSent picked_rows (
      All-keep_if IsSent (λ r. p r.0) (inner_join is_sender t.messages t.users)
        (join_senders t s t.messages s.messages_held).1)

  page-IsPage : IsPage p (page_size limit) t (page p limit t)
  unfolding page sorted_rows picked_rows
  page-IsPage =
      let whole = take-append-drop (page_size limit) sorted_rows in
      record {
        front = take (page_size limit) sorted_rows;
        rest = drop (page_size limit) sorted_rows;
        shown = refl;
        picked = rw whole sorted_rows-picked;
        senders = rw whole sorted_rows-senders;
        newest_first = rw whole (sort_by-IsSorted newer newer_total picked_rows);
        bounded =
            rw (length-map sent_message (take (page_size limit) sorted_rows))
              (length-take-le (page_size limit) sorted_rows);
        full =
            rw (length-map sent_message (take (page_size limit) sorted_rows))
              (drop_short (page_size limit) sorted_rows);
      }

pub query-eq-ok : {A : Type 0} (k : Call) (a b : A) → query k (ok a) ≡ ok b → a ≡ b
unfolding query
query-eq-ok k a b h = ground arith

-- What ListRoomMessages answers from sound tables is a page of the messages of the room before the
-- instant, of the limit or, for a limit that is not positive, of 50.
pub list_room_messages-IsPage :
    (k : Call) (room : Uuid) (limit : ℤ) (before : ℕ) (t : Tables) (l : List Message)
    → IsSound t
    → list_room_messages k room limit before t ≡ ok l
    → IsPage (is_in_room room before) (page_size limit) t l
unfolding list_room_messages
list_room_messages-IsPage k room limit before t l s h =
    rw (query-eq-ok k (page (is_in_room room before) limit t) l h) at
      (page-IsPage (is_in_room room before) limit t s)

-- What ListDMs answers from sound tables is a page of the messages between the two users, in either
-- direction and in no room, before the instant.
pub list_dms-IsPage :
    (k : Call) (a b : Uuid) (limit : ℤ) (before : ℕ) (t : Tables) (l : List Message)
    → IsSound t
    → list_dms k a b limit before t ≡ ok l
    → IsPage (is_between a b before) (page_size limit) t l
unfolding list_dms
list_dms-IsPage k a b limit before t l s h =
    rw (query-eq-ok k (page (is_between a b before) limit t) l h) at
      (page-IsPage (is_between a b before) limit t s)
