-- ===== src/Strings/Decimal.antt =====
-- `%d`, `%04d` and `strconv.Atoi`.
use mathlib.Core.Option
use livechat_server.Base.{
  is_nil, not, ℕ, zero, suc, ◌+◌, ◌-◌, ◌*◌, ◌/◌, ◌%◌, ◌^◌, ◌<◌, ◌≡◌, refl, Bool, true, [], ◌∷◌,
  Text, arith, ◌==◌, some, none, if◌then◌else◌, ltb, leb, Option, ◌||◌, length, ℤ, pos, negsuc,
  ◌&&◌, ◌≢◌, ◌∙◌,
}

dec_loop : ℕ → ℕ → Text → Text
dec_loop zero n out = out
dec_loop (suc f) n out =
    let out' = (b'0' + n % 10) ∷ out in
    let rest = dec_loop f (n / 10) out' in if ltb n 10 then out' else rest

-- `%d` at a number that is not negative.
unfoldable pub dec : ℕ → Text
unfolding dec_loop
dec n = dec_loop (suc n) n []

abbrev zeros : ℕ → Text → Text
zeros zero s = s
zeros (suc n) s = b'0' ∷ zeros n s

-- `%04d`.
unfoldable pub dec4 : ℕ → Text
dec4 n = zeros (4 - length (dec n)) (dec n)

-- The number that digits spell behind `n`.
pub value : ℕ → Text → ℕ
value n [] = n
value n (c ∷ s) = value (n * 10 + (c - b'0')) s

value-dec_loop : (f n : ℕ) (out : Text) → n < f → value 0 (dec_loop f n out) ≡ value n out
unfolding dec_loop value
value-dec_loop zero n out h = absurd (omega arith)
value-dec_loop (suc f) n out h = ground (arith, value-dec_loop f (n / 10) ((b'0' + n % 10) ∷ out))

-- The decimal print of a number spells it.
pub value-dec : (n : ℕ) → value 0 (dec n) ≡ n
unfolding dec value
value-dec n = value-dec_loop (suc n) n [] (omega arith)

value-zeros : (k : ℕ) (s : Text) → value 0 (zeros k s) ≡ value 0 s
unfolding value
value-zeros zero s = refl
value-zeros (suc k) s = value-zeros k s

pub value-dec4 : (n : ℕ) → value 0 (dec4 n) ≡ n
unfolding dec4
value-dec4 n = value-zeros _ (dec n) ∙ value-dec n

pub dec_injective : (m n : ℕ) → dec m ≡ dec n → m ≡ n
dec_injective m n h = cc (value-dec m, value-dec n)

pub dec4_injective : (m n : ℕ) → dec4 m ≡ dec4 n → m ≡ n
dec4_injective m n h = cc (value-dec4 m, value-dec4 n)

abbrev pub digits_only : Text → Bool
digits_only [] = true
digits_only (c ∷ s) = leb b'0' c && leb c b'9' && digits_only s

dec_loop-digits :
    (f n : ℕ) (out : Text) → digits_only out ≡ true → digits_only (dec_loop f n out) ≡ true
unfolding dec_loop
dec_loop-digits zero n out h = h
dec_loop-digits (suc f) n out h = ground (arith, dec_loop-digits f (n / 10) ((b'0' + n % 10) ∷ out))

pub dec-digits : (n : ℕ) → digits_only (dec n) ≡ true
unfolding dec
dec-digits n = dec_loop-digits (suc n) n [] refl

zeros-digits : (k : ℕ) (s : Text) → digits_only s ≡ true → digits_only (zeros k s) ≡ true
zeros-digits zero s h = h
zeros-digits (suc k) s h = zeros-digits k s h

pub dec4-digits : (n : ℕ) → digits_only (dec4 n) ≡ true
unfolding dec4
dec4-digits n = zeros-digits (4 - length (dec n)) (dec n) (dec-digits n)

-- What `Atoi` reads behind the sign: `none` for no digits, for another character, and for a
-- number above the bound.
unsigned : ℕ → Text → Option ℕ
unfolding value
unsigned bound s =
    if is_nil s || not (digits_only s) || ltb bound (value 0 s) then none else some (value 0 s)

negate : ℕ → ℤ
negate zero = pos 0
negate (suc n) = negsuc n

-- `strconv.Atoi` on a 64-bit platform; `none` stands for its errors.
unfoldable pub atoi : Text → Option ℤ
unfolding unsigned negate
atoi [] = none
atoi (c ∷ s) =
    if c == b'-'
    then Option.map negate (unsigned (2 ^ 63) s)
    else if c == b'+'
    then Option.map pos (unsigned (2 ^ 63 - 1) s)
    else Option.map pos (unsigned (2 ^ 63 - 1) (c ∷ s))

atoi_of_digits :
    (s : Text)
    → s ≢ []
    → digits_only s ≡ true
    → value 0 s < 2 ^ 63
    → atoi s ≡ some (pos (value 0 s))
unfolding atoi
atoi_of_digits [] ne d h = absurd (ne refl)
atoi_of_digits (c ∷ s) ne d h = ground arith

dec_loop-ne-nil : (f n : ℕ) (out : Text) → out ≢ [] → dec_loop f n out ≢ []
unfolding dec_loop
dec_loop-ne-nil zero n out h = h
dec_loop-ne-nil (suc f) n out h = ground (arith, dec_loop-ne-nil f (n / 10) ((b'0' + n % 10) ∷ out))

pub dec-ne-nil : (n : ℕ) → dec n ≢ []
unfolding dec dec_loop
dec-ne-nil n = ground (arith, dec_loop-ne-nil n (n / 10) ((b'0' + n % 10) ∷ []))

-- `Atoi` reads back the print of every number that an `int` holds.
pub atoi-dec : (n : ℕ) → n < 2 ^ 63 → atoi (dec n) ≡ some (pos n)
atoi-dec n h =
    atoi_of_digits (dec n) (dec-ne-nil n) (dec-digits n) (omega (arith, value-dec n))
    ∙ rw (value-dec n)
