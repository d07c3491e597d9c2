-- ===== src/Config/Origins.antt =====
-- The list of origins of internal/config/config.go.
use mathlib.Core.List.{append-nil}
use livechat_server.Base.{
  ◌≡◌, refl, ap, false, not, List, [], ◌∷◌, ◌++◌, map, Text, codes, is_nil, keep_if, All, contains,
  ==_iff, arith,
}
use livechat_server.Strings.{trim_space, join}
use livechat_server.Config.{split_first, split_comma, split_and_trim}

-- A part that is not lost: not empty, with no white space round it and no comma in it.
abbrev pub IsPart : Text → Type 0
IsPart s = (is_nil s ≡ false) × (trim_space s ≡ s) × (contains b',' s ≡ false)

split_first-append :
    (s t : Text)
    → contains b',' s ≡ false
    → split_first (s ++ t) ≡ (s ++ (split_first t).0, (split_first t).1)
unfolding split_first contains
split_first-append [] t h = refl
split_first-append (c ∷ s) t h =
    ground (arith, split_first-append s t, ==_iff b',' c, ==_iff c b',')

split_first_one : (s : Text) → contains b',' s ≡ false → split_first s ≡ (s, [])
unfolding split_first contains
split_first_one [] h = refl
split_first_one (c ∷ s) h = ground (arith, split_first_one s, ==_iff b',' c, ==_iff c b',')

split_first_comma : (s : Text) → split_first (b',' ∷ s) ≡ ([], split_comma s)
unfolding split_first split_comma
split_first_comma s = refl

split_comma-join :
    (s : Text) (l : List Text) → All IsPart (s ∷ l) → split_comma (join (s ∷ l) (codes ",")) ≡ s ∷ l
unfolding split_comma join
split_comma-join s [] h = rw (split_first_one s h.0.2)
split_comma-join s (t ∷ l) h = rw (
  split_first-append s (b',' ∷ join (t ∷ l) (codes ",")) h.0.2,
  split_first_comma (join (t ∷ l) (codes ",")),
  split_comma-join t l h.1,
  append-nil s,
)

trimmed_parts :
    (l : List Text) → All IsPart l → keep_if (λ s. not (is_nil s)) (map trim_space l) ≡ l
unfolding keep_if
trimmed_parts [] h = refl
trimmed_parts (s ∷ l) h = rw (h.0.1, h.0.0) (ap (λ r. s ∷ r) (trimmed_parts l h.1))

-- Parts that are not empty, have no white space round them and hold no comma are read back, in their
-- order, from the text that they make with commas in between.
pub split_and_trim-join :
    (s : Text) (l : List Text)
    → All IsPart (s ∷ l)
    → split_and_trim (join (s ∷ l) (codes ",")) ≡ s ∷ l
unfolding split_and_trim
split_and_trim-join s l h = rw (split_comma-join s l h) (trimmed_parts (s ∷ l) h)
