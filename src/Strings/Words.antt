-- ===== src/Strings/Words.antt =====
-- Laws of `SplitN`, `Fields` and slicing.
use mathlib.Core.List.{append-nil}
use livechat_server.Base.{
  ℕ, ◌≡◌, refl, Bool, true, false, List, [], ◌∷◌, ◌++◌, Text, arith, all, ◌==◌, not, some, none,
  ◌∙◌,
}
use livechat_server.Strings.{
  is_space, split_space, fields, fields_from, byte_len, drop_bytes, width,
}

abbrev pub not_space : ℕ → Bool
not_space c = not (is_space c)

width_pos : (c : ℕ) → (width c == 0) ≡ false
width_pos c = ground arith

-- Slicing off a prefix by its length in bytes.
pub drop_bytes-append : (s t : Text) → drop_bytes (byte_len s) (s ++ t) ≡ t
unfolding drop_bytes byte_len
drop_bytes-append [] [] = refl
drop_bytes-append [] (c ∷ t) = refl
drop_bytes-append (c ∷ s) t = ground (arith, drop_bytes-append s t)

pub split_space-append :
    (s t : Text) → all (λ c. not (c == 32)) s ≡ true → split_space (s ++ 32 ∷ t) ≡ (s, some t)
unfolding split_space all
split_space-append [] t h = refl
split_space-append (c ∷ s) t h = ground (arith, split_space-append s t)

pub split_space-all : (s : Text) → all (λ c. not (c == 32)) s ≡ true → split_space s ≡ (s, none)
unfolding split_space all
split_space-all [] h = refl
split_space-all (c ∷ s) h = ground (arith, split_space-all s)

fields_from-append :
    (s t : Text)
    → all not_space s ≡ true
    → fields_from (s ++ t) ≡ (s ++ (fields_from t).0, (fields_from t).1)
unfolding fields_from all
fields_from-append [] t h = refl
fields_from-append (c ∷ s) t h = ground (arith, fields_from-append s t)

fields_from_space : (t : Text) → fields_from (32 ∷ t) ≡ ([], fields t)
unfolding fields fields_from
fields_from_space t = refl

fields-fields_from :
    (s : Text) (c : ℕ) (w : Text) (r : List Text)
    → fields_from s ≡ (c ∷ w, r)
    → fields s ≡ (c ∷ w) ∷ r
unfolding fields
fields-fields_from s c w r h = rw h

-- The first word of a text that begins with a word and a space is that word.
pub fields-append :
    (c : ℕ) (s t : Text)
    → all not_space (c ∷ s) ≡ true
    → fields ((c ∷ s) ++ 32 ∷ t) ≡ (c ∷ s) ∷ fields t
fields-append c s t h =
    fields-fields_from _ c s (fields t)
      (fields_from-append (c ∷ s) (32 ∷ t) h ∙ rw (fields_from_space t) (rw (append-nil s)))
