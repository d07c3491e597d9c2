-- ===== src/Strings.antt =====
-- What the program uses of Go's `strings`, `unicode` and `strconv`. A string is the sequence of
-- its code points: input is taken to be valid UTF-8.
pub mod Ascii
pub mod Decimal
pub mod Sorting
pub mod Trim
pub mod Words
use livechat_server.Base.{
  ℕ, zero, suc, ◌+◌, ◌-◌, ◌≡◌, Bool, true, false, ◌&&◌, ◌||◌, List, [], ◌∷◌, ◌++◌, map, Text, codes,
  ltb, leb, ◌==◌, text_eq, if◌then◌else◌, Option, none, some, is_nil,
}

abbrev pub ascii_letter : ℕ → Bool
ascii_letter c = (leb b'a' c && leb c b'z') || (leb b'A' c && leb c b'Z')

abbrev pub ascii_digit : ℕ → Bool
ascii_digit c = leb b'0' c && leb c b'9'

abbrev pub ascii_lower : ℕ → ℕ
ascii_lower c = if leb b'A' c && leb c b'Z' then c + 32 else c

-- `unicode.IsSpace`.
unfoldable pub is_space : ℕ → Bool
is_space c =
    if ltb c 0x100
    then (leb 9 c && leb c 13) || c == 32 || c == 0x85 || c == 0xa0
    else c == 0x1680
      || (leb 0x2000 c && leb c 0x200a)
      || c == 0x2028
      || c == 0x2029
      || c == 0x202f
      || c == 0x205f
      || c == 0x3000

-- The tables of package `unicode` and the quoting of `%q`, and what the program relies on: they extend those of ASCII, the
-- lower case of a lower case letter is itself, and white space is neither letter, digit nor cased.
pub record Unicode : Type 0 where
  pub is_letter : ℕ → Bool
  pub is_digit : ℕ → Bool
  pub lower : ℕ → ℕ
  -- the least code point that `unicode.SimpleFold` reaches
  pub fold : ℕ → ℕ
  -- `%q` of a character
  pub quote_rune : ℕ → Text
  pub ascii_is_letter : (c : ℕ) → ltb c 128 ≡ true → is_letter c ≡ ascii_letter c
  pub ascii_is_digit : (c : ℕ) → ltb c 128 ≡ true → is_digit c ≡ ascii_digit c
  pub ascii_to_lower : (c : ℕ) → ltb c 128 ≡ true → lower c ≡ ascii_lower c
  pub lower_idem : (c : ℕ) → lower (lower c) ≡ lower c
  pub is_space-lower : (c : ℕ) → is_space (lower c) ≡ is_space c
  pub is_space_of_letter : (c : ℕ) → is_letter c ≡ true → is_space c ≡ false
  pub is_space_of_digit : (c : ℕ) → is_digit c ≡ true → is_space c ≡ false

-- Bytes of the UTF-8 encoding of a code point.
abbrev pub width : ℕ → ℕ
width c = if ltb c 0x80 then 1 else if ltb c 0x800 then 2 else if ltb c 0x10000 then 3 else 4

-- `len(s)`.
unfoldable pub byte_len : Text → ℕ
byte_len [] = 0
byte_len (c ∷ s) = width c + byte_len s

-- `s[n:]`, where `n` falls between two code points.
unfoldable pub drop_bytes : ℕ → Text → Text
drop_bytes n [] = []
drop_bytes n (c ∷ s) = let rest = drop_bytes (n - width c) s in if n == 0 then c ∷ s else rest

-- `strings.TrimLeftFunc`.
unfoldable pub trim_left : (ℕ → Bool) → Text → Text
trim_left p [] = []
trim_left p (c ∷ s) = let rest = trim_left p s in if p c then rest else c ∷ s

-- `strings.TrimRightFunc`: `snoc` puts `c` before what is left of the text behind it.
abbrev snoc : (ℕ → Bool) → ℕ → Text → Text
snoc p c [] = if p c then [] else c ∷ []
snoc p c (d ∷ s) = c ∷ d ∷ s

unfoldable pub trim_right : (ℕ → Bool) → Text → Text
trim_right p [] = []
trim_right p (c ∷ s) = snoc p c (trim_right p s)

-- `strings.TrimSpace`.
unfoldable pub trim_space : Text → Text
trim_space s = trim_right is_space (trim_left is_space s)

-- `strings.TrimRight(s, "\r\n")`.
unfoldable pub trim_line_end : Text → Text
trim_line_end = trim_right (λ c. c == 13 || c == 10)

-- `strings.HasPrefix(s, "/")` and `strings.TrimPrefix(s, "/")`.
abbrev pub has_slash : Text → Bool
has_slash [] = false
has_slash (c ∷ s) = c == b'/'

abbrev pub trim_slash : Text → Text
trim_slash [] = []
trim_slash (c ∷ s) = if c == b'/' then s else c ∷ s

-- `strings.SplitN(s, " ", 2)`: the first part, and the second if there is a space.
unfoldable pub split_space : Text → Text × Option Text
split_space [] = ([], none)
split_space (c ∷ s) = let (a, b) = split_space s in if c == 32 then ([], some s) else (c ∷ a, b)

-- `strings.Fields`: `word` is the word that the text goes on with, and `rest` the words behind it.
unfoldable pub fields_from : Text → Text × List Text
unfolding is_space
fields_from [] = ([], [])
fields_from (c ∷ s) =
    let (word, rest) = fields_from s in
    if is_space c then ([], if is_nil word then rest else word ∷ rest) else (c ∷ word, rest)

unfoldable pub fields : Text → List Text
unfolding fields_from
fields s = let (word, rest) = fields_from s in if is_nil word then rest else word ∷ rest

-- `strings.Join(names, sep)`.
unfoldable pub join : List Text → Text → Text
join [] sep = []
join (s ∷ []) sep = s
join (s ∷ t ∷ r) sep = s ++ (sep ++ join (t ∷ r) sep)

module _ ⦃u : Unicode⦄ where
  -- `strings.ToLower`.
  unfoldable pub to_lower : Text → Text
  to_lower = map u.lower

  -- `strings.EqualFold`.
  unfoldable pub equal_fold : Text → Text → Bool
  equal_fold s t = text_eq (map u.fold s) (map u.fold t)
