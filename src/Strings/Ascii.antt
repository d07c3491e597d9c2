-- ===== src/Strings/Ascii.antt =====
-- The tables of package `unicode` cut down to ASCII, which meet what the program relies on, and
-- texts that are in lower case already.
use livechat_server.Base.{
  ℕ, ◌≡◌, refl, Bool, true, false, ◌&&◌, not, [], ◌∷◌, Text, ltb, leb, arith, all,
}
use livechat_server.Strings.{Unicode, ascii_letter, ascii_digit, ascii_lower, is_space, to_lower}

pub lower_twice : (c : ℕ) → ascii_lower (ascii_lower c) ≡ ascii_lower c
lower_twice c = ground arith

pub space_lower : (c : ℕ) → is_space (ascii_lower c) ≡ is_space c
unfolding is_space
space_lower c = ground arith

pub letter_space : (c : ℕ) → ascii_letter c ≡ true → is_space c ≡ false
unfolding is_space
letter_space c h = ground arith

pub digit_space : (c : ℕ) → ascii_digit c ≡ true → is_space c ≡ false
unfolding is_space
digit_space c h = ground arith

abbrev pub ascii : Unicode
ascii = record {
  is_letter = ascii_letter;
  is_digit = ascii_digit;
  lower = ascii_lower;
  fold = ascii_lower;
  quote_rune = λ c. b'\'' ∷ c ∷ b'\'' ∷ [];
  ascii_is_letter = λ c h. refl;
  ascii_is_digit = λ c h. refl;
  ascii_to_lower = λ c h. refl;
  lower_idem = lower_twice;
  is_space-lower = space_lower;
  is_space_of_letter = letter_space;
  is_space_of_digit = digit_space;
}

abbrev pub is_lower : ℕ → Bool
is_lower c = ltb c 128 && not (leb b'A' c && leb c b'Z')

module _ ⦃u : Unicode⦄ where
  lower_same : (c : ℕ) → is_lower c ≡ true → u.lower c ≡ c
  lower_same c h = ground (arith, u.ascii_to_lower c)

  pub to_lower_same : (s : Text) → all is_lower s ≡ true → to_lower s ≡ s
  unfolding to_lower all
  to_lower_same [] h = refl
  to_lower_same (c ∷ s) h = ground (arith, lower_same c, to_lower_same s)
