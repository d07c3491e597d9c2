-- ===== src/Chat/Util/Commands.antt =====
-- Command lines: what `parseCommand` returns for `/cmd args`.
use mathlib.Core.List.{append-nil}
use livechat_server.Base.{
  leb, ◌&&◌, ℕ, ◌≡◌, ◌<◌, ◌^◌, refl, true, false, [], ◌∷◌, ◌++◌, Text, some, arith, all, is_nil,
  if◌then◌else◌, ap, ◌∙◌, not, ◌==◌, ℤ, pos,
}
use livechat_server.Strings.{
  Unicode, trim_space, trim_right, trim_left, trim_slash, to_lower, is_space, split_space,
}
use livechat_server.Strings.Trim.{
  trim_right_cons, trim_space-trim_right, trim_space-nil, all-bare, trim_space_of_bare,
}
use livechat_server.Strings.Words.{not_space, split_space-append, split_space-all}
use livechat_server.Strings.Decimal.{dec, atoi-dec, dec-ne-nil, dec-digits, digits_only}
use livechat_server.Chat.Util.{parse_command, command_parts, parse_optional_int}

pub trim_right-append :
    (s t : Text)
    → all not_space s ≡ true
    → trim_right is_space (s ++ t) ≡ s ++ trim_right is_space t
unfolding all
trim_right-append [] t h = refl
trim_right-append (c ∷ s) t h =
    trim_right_cons is_space c (s ++ t) (ground arith)
    ∙ ap (◌∷◌ c) (trim_right-append s t (ground arith))

not_32 : (c : ℕ) → not_space c ≡ true → not (c == 32) ≡ true
unfolding is_space
not_32 c h = ground arith

no_blank : (s : Text) → all not_space s ≡ true → all (λ c. not (c == 32)) s ≡ true
unfolding all
no_blank [] h = refl
no_blank (c ∷ s) h = ground (arith, not_32 c, no_blank s)

-- What is left of a command line behind its slash, once it is trimmed.
trimmed_line :
    (cmd args : Text)
    → all not_space cmd ≡ true
    → trim_slash (trim_space (b'/' ∷ (cmd ++ 32 ∷ args))) ≡ cmd ++ trim_right is_space (32 ∷ args)
unfolding trim_space trim_left is_space
trimmed_line cmd args h =
    rw (trim_right_cons is_space b'/' (cmd ++ 32 ∷ args) refl) (trim_right-append cmd (32 ∷ args) h)

blank_nil : (args : Text) → trim_right is_space args ≡ [] → trim_right is_space (32 ∷ args) ≡ []
unfolding trim_right is_space
blank_nil args e = rw e

pub blank_cons :
    (args : Text) (d : ℕ) (t : Text)
    → trim_right is_space args ≡ d ∷ t
    → trim_right is_space (32 ∷ args) ≡ 32 ∷ d ∷ t
unfolding trim_right
blank_cons args d t e = rw e

digits_bare : (s : Text) → digits_only s ≡ true → all (λ c. leb b'0' c && leb c b'9') s ≡ true
unfolding all
digits_bare [] h = refl
digits_bare (c ∷ s) h = ground (arith, digits_bare s)

digit_not_space : (c : ℕ) → (leb b'0' c && leb c b'9') ≡ true → is_space c ≡ false
unfolding is_space
digit_not_space c h = ground arith

dec-bare : (n : ℕ) → trim_space (dec n) ≡ dec n
dec-bare n =
    let (front, back) = all-bare _ (dec n) (digits_bare (dec n) (dec-digits n)) digit_not_space in
    trim_space_of_bare (dec n) front back

-- A history length reads back as the number that was printed.
pub parse_optional_int-dec :
    (n : ℕ) (fallback : ℤ) → n < 2 ^ 63 → parse_optional_int (dec n) fallback ≡ some (pos n)
unfolding parse_optional_int
parse_optional_int-dec n fallback h = ground (arith, dec-bare n, dec-ne-nil n, atoi-dec n h)

module _ ⦃u : Unicode⦄ where
  parse_trimmed : Text → Text × Text
  unfolding command_parts
  parse_trimmed t = if is_nil t then ([], []) else command_parts (split_space t)

  parse_trimmed_word :
      (cmd : Text) → all not_space cmd ≡ true → parse_trimmed cmd ≡ (to_lower cmd, [])
  unfolding parse_trimmed to_lower
  parse_trimmed_word [] h = refl
  parse_trimmed_word (c ∷ cmd) h = rw (split_space-all (c ∷ cmd) (no_blank (c ∷ cmd) h))

  parse_trimmed_args :
      (cmd args : Text)
      → all not_space cmd ≡ true
      → parse_trimmed (cmd ++ 32 ∷ args) ≡ (to_lower cmd, trim_space args)
  unfolding parse_trimmed all
  parse_trimmed_args [] args h = rw (split_space-append [] args refl)
  parse_trimmed_args (c ∷ cmd) args h =
      rw (split_space-append (c ∷ cmd) args (no_blank (c ∷ cmd) h))

  parse_tail :
      (cmd args tail : Text)
      → all not_space cmd ≡ true
      → trim_right is_space args ≡ tail
      → parse_trimmed (cmd ++ trim_right is_space (32 ∷ args)) ≡ (to_lower cmd, trim_space args)
  parse_tail cmd args [] h e =
      rw (blank_nil args e, append-nil, trim_space-nil args e) (parse_trimmed_word cmd h)
  parse_tail cmd args (d ∷ tail) h e =
      rw (blank_cons args d tail e, parse_trimmed_args cmd (d ∷ tail) h, ← e)
        (ap (λ a. (to_lower cmd, a)) (trim_space-trim_right args))

  -- A command word and its arguments come back as the word in lower case and the trimmed arguments.
  pub parse_command_line :
      (cmd args : Text)
      → all not_space cmd ≡ true
      → parse_command (b'/' ∷ (cmd ++ 32 ∷ args)) ≡ (to_lower cmd, trim_space args)
  unfolding parse_command parse_trimmed
  parse_command_line cmd args h =
      rw (trimmed_line cmd args h) (parse_tail cmd args (trim_right is_space args) h refl)
