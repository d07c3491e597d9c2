-- ===== src/Strings/Trim.antt =====
-- Laws of the trimming functions.
use livechat_server.Base.{ℕ, ◌≡◌, refl, ◌∙◌, Bool, true, false, [], ◌∷◌, Text, arith, all}
use livechat_server.Strings.{Unicode, is_space, trim_left, trim_right, trim_space, to_lower, snoc}

-- Whether a text begins, or ends, with a code point that passes the test.
abbrev pub begins : (ℕ → Bool) → Text → Bool
begins p [] = false
begins p (c ∷ s) = p c

abbrev pub ends : (ℕ → Bool) → Text → Bool
ends p [] = false
ends p (c ∷ []) = p c
ends p (c ∷ d ∷ s) = ends p (d ∷ s)

module _ (p : ℕ → Bool) where
  pub begins-trim_left : (s : Text) → begins p (trim_left p s) ≡ false
  unfolding trim_left
  begins-trim_left [] = refl
  begins-trim_left (c ∷ s) = ground (arith, begins-trim_left s)

  pub trim_left_of_begins : (s : Text) → begins p s ≡ false → trim_left p s ≡ s
  unfolding trim_left
  trim_left_of_begins [] h = refl
  trim_left_of_begins (c ∷ s) h = ground arith

  ends-snoc : (c : ℕ) (s : Text) → ends p s ≡ false → ends p (snoc p c s) ≡ false
  ends-snoc c [] h = ground arith
  ends-snoc c (d ∷ s) h = h

  pub ends-trim_right : (s : Text) → ends p (trim_right p s) ≡ false
  unfolding trim_right
  ends-trim_right [] = refl
  ends-trim_right (c ∷ s) = ends-snoc c (trim_right p s) (ends-trim_right s)

  pub trim_right_of_ends : (s : Text) → ends p s ≡ false → trim_right p s ≡ s
  unfolding trim_right
  trim_right_of_ends [] h = refl
  trim_right_of_ends (c ∷ []) h = ground arith
  trim_right_of_ends (c ∷ d ∷ s) h = rw (trim_right_of_ends (d ∷ s) h)

  begins-snoc : (c : ℕ) (s : Text) → p c ≡ false → begins p (snoc p c s) ≡ false
  begins-snoc c [] h = ground arith
  begins-snoc c (d ∷ s) h = h

  pub begins-trim_right : (s : Text) → begins p s ≡ false → begins p (trim_right p s) ≡ false
  unfolding trim_right
  begins-trim_right [] h = refl
  begins-trim_right (c ∷ s) h = begins-snoc c (trim_right p s) h

  -- The two ends are trimmed independently.
  trim_left-snoc : (c : ℕ) (s : Text) → p c ≡ true → trim_left p (snoc p c s) ≡ trim_left p s
  unfolding trim_left
  trim_left-snoc c [] h = ground arith
  trim_left-snoc c (d ∷ s) h = ground arith

  pub trim_right_cons : (c : ℕ) (s : Text) → p c ≡ false → trim_right p (c ∷ s) ≡ c ∷ trim_right p s
  unfolding trim_right
  trim_right_cons c s h = snoc_false c (trim_right p s) h
    where
      snoc_false : (c : ℕ) (s : Text) → p c ≡ false → snoc p c s ≡ c ∷ s
      snoc_false c [] h = ground arith
      snoc_false c (d ∷ s) h = refl

  pub trim_right-trim_left :
      (s : Text) → trim_right p (trim_left p s) ≡ trim_left p (trim_right p s)
  unfolding trim_left trim_right
  trim_right-trim_left [] = refl
  trim_right-trim_left (c ∷ s) = ground (
    arith,
    trim_right-trim_left s,
    trim_left-snoc c (trim_right p s),
    begins-snoc c (trim_right p s),
    trim_left_of_begins (snoc p c (trim_right p s)),
  )

pub begins-trim_space : (s : Text) → begins is_space (trim_space s) ≡ false
unfolding trim_space
begins-trim_space s = begins-trim_right is_space _ (begins-trim_left is_space s)

pub ends-trim_space : (s : Text) → ends is_space (trim_space s) ≡ false
unfolding trim_space
ends-trim_space s = ends-trim_right is_space (trim_left is_space s)

pub trim_space_of_bare :
    (s : Text) → begins is_space s ≡ false → ends is_space s ≡ false → trim_space s ≡ s
unfolding trim_space
trim_space_of_bare s h k = rw (trim_left_of_begins is_space s h) (trim_right_of_ends is_space s k)

pub trim_space_idem : (s : Text) → trim_space (trim_space s) ≡ trim_space s
trim_space_idem s = trim_space_of_bare _ (begins-trim_space s) (ends-trim_space s)

pub trim_space-trim_right : (s : Text) → trim_space (trim_right is_space s) ≡ trim_space s
unfolding trim_space
trim_space-trim_right s =
    rw (← trim_right-trim_left is_space s)
      (trim_right_of_ends is_space _ (ends-trim_right is_space (trim_left is_space s)))

pub trim_space-nil : (s : Text) → trim_right is_space s ≡ [] → trim_space s ≡ []
unfolding trim_space trim_left
trim_space-nil s h = trim_right-trim_left is_space s ∙ rw h

-- A text with no white space is not trimmed.
pub all-bare :
    (p : ℕ → Bool) (s : Text)
    → all p s ≡ true
    → ((c : ℕ) → p c ≡ true → is_space c ≡ false)
    → (begins is_space s ≡ false) × (ends is_space s ≡ false)
unfolding all
all-bare p [] h sound = (refl, refl)
all-bare p (c ∷ []) h sound = ground (arith, sound c)
all-bare p (c ∷ d ∷ s) h sound = ground (arith, sound c, all-bare p (d ∷ s) (ground arith) sound)

module _ ⦃u : Unicode⦄ where
  pub to_lower_idem : (s : Text) → to_lower (to_lower s) ≡ to_lower s
  unfolding to_lower
  to_lower_idem [] = refl
  to_lower_idem (c ∷ s) = cc (u.lower_idem c, to_lower_idem s)

  pub begins-to_lower : (s : Text) → begins is_space (to_lower s) ≡ begins is_space s
  unfolding to_lower
  begins-to_lower [] = refl
  begins-to_lower (c ∷ s) = u.is_space-lower c

  pub ends-to_lower : (s : Text) → ends is_space (to_lower s) ≡ ends is_space s
  unfolding to_lower
  ends-to_lower [] = refl
  ends-to_lower (c ∷ []) = u.is_space-lower c
  ends-to_lower (c ∷ d ∷ s) = ends-to_lower (d ∷ s)
