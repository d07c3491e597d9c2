-- ===== src/Strings/Sorting.antt =====
-- `sort.Strings` and `sort.Slice`, by insertion. The order of the program's lists is total, so
-- any sorting algorithm gives this result up to entries that compare as equal.
use mathlib.Core.List.{Perm}
use mathlib.Core.List.Perm
use livechat_server.Base.{
  ◌≡◌, refl, Bool, true, false, List, [], ◌∷◌, Text, arith, ◌==◌, ◌||◌, ◌&&◌, ltb, if◌then◌else◌,
  inl, inr, Bool-cases, All,
}

-- `s <= t` on strings: UTF-8 keeps the order of code points.
unfoldable pub text_le : Text → Text → Bool
text_le [] t = true
text_le (c ∷ s) [] = false
text_le (c ∷ s) (d ∷ t) = ltb c d || (c == d && text_le s t)

pub text_le_total : (s t : Text) → text_le s t ≡ false → text_le t s ≡ true
unfolding text_le
text_le_total [] t h = cc
text_le_total (c ∷ s) [] h = refl
text_le_total (c ∷ s) (d ∷ t) h = ground (arith, text_le_total s t)

module _ {ℓ} {A : Type ℓ} (le : A → A → Bool) where
  unfoldable pub insert_sorted : A → List A → List A
  insert_sorted x [] = x ∷ []
  insert_sorted x (y ∷ l) = let rest = insert_sorted x l in if le x y then x ∷ y ∷ l else y ∷ rest

  unfoldable pub sort_by : List A → List A
  unfolding insert_sorted
  sort_by [] = []
  sort_by (x ∷ l) = insert_sorted x (sort_by l)

  insert_sorted-perm : (x : A) (l : List A) → Perm (insert_sorted x l) (x ∷ l)
  unfolding insert_sorted
  insert_sorted-perm x [] = Perm.refl _
  insert_sorted-perm x (y ∷ l) = elim (Bool-cases (le x y)) [
    | inl h ↦ rw h (Perm.refl _)
    | inr h ↦ rw h (Perm.trans (Perm.cons y (insert_sorted-perm x l)) (Perm.swap x y l))
  ]

  pub sort_by-perm : (l : List A) → Perm (sort_by l) l
  unfolding sort_by
  sort_by-perm [] = Perm.refl _
  sort_by-perm (x ∷ l) =
      Perm.trans (insert_sorted-perm x (sort_by l)) (Perm.cons x (sort_by-perm l))

  -- Each entry may stand before the one behind it.
  abbrev pub IsSorted : List A → Type 0
  IsSorted [] = Unit
  IsSorted (x ∷ []) = Unit
  IsSorted (x ∷ y ∷ l) = (le x y ≡ true) × IsSorted (y ∷ l)

  module _ (total : (x y : A) → le x y ≡ false → le y x ≡ true) where
    insert_sorted-IsSorted : (x : A) (l : List A) → IsSorted l → IsSorted (insert_sorted x l)
    unfolding insert_sorted
    insert_sorted-IsSorted x [] h = tt
    insert_sorted-IsSorted x (y ∷ []) h = ground (arith, total x y)
    insert_sorted-IsSorted x (y ∷ z ∷ l) h =
        ground (arith, total x y, total x z, insert_sorted-IsSorted x (z ∷ l) h.1)

    pub sort_by-IsSorted : (l : List A) → IsSorted (sort_by l)
    unfolding sort_by
    sort_by-IsSorted [] = tt
    sort_by-IsSorted (x ∷ l) = insert_sorted-IsSorted x (sort_by l) (sort_by-IsSorted l)

  module _ {κ} (P : A → Type κ) where
    All-insert_sorted : (x : A) (l : List A) → P x → All P l → All P (insert_sorted x l)
    unfolding insert_sorted
    All-insert_sorted x [] h k = (h, tt)
    All-insert_sorted x (y ∷ l) h k = elim (Bool-cases (le x y)) [
      | inl e ↦ rw (e, insert_sorted) (h, k)
      | inr e ↦ rw (e, insert_sorted) (k.0, All-insert_sorted x l h k.1)
    ]

    pub All-sort_by : (l : List A) → All P l → All P (sort_by l)
    unfolding sort_by
    All-sort_by [] h = tt
    All-sort_by (x ∷ l) h = All-insert_sorted x (sort_by l) h.0 (All-sort_by l h.1)
