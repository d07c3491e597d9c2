-- ===== src/Base/Maps.antt =====
-- A Go map with string keys, as an association list, and a heap as a function on addresses.
use Prim.Native.Nat.{ℕ}
use mathlib.Core.Path.{◌≡◌, refl}
use mathlib.Core.Bool.{Bool, true, false, ◌||◌, ◌&&◌}
use mathlib.Core.Logic.{inl, inr}
use mathlib.Core.Option.{Option, none, some}
use mathlib.Core.List.{List, [], ◌∷◌, map}
use native.Mathlib.Omega.{arith}
use livechat_server.Base.Lists.{keep_if}
use livechat_server.Base.Tests.{==_iff, Text, text_eq, text_eq_iff, ◌==◌, if◌then◌else◌, Bool-cases}

abbrev pub StrMap {ℓ} : Type ℓ → Type ℓ
StrMap V = List (Text × V)

module _ {ℓ} {V : Type ℓ} where
  -- `m[k]`
  unfoldable pub lookup : Text → StrMap V → Option V
  lookup k [] = none
  lookup k ((j, v) ∷ m) = if text_eq j k then some v else lookup k m

  -- `m[k] = v`
  unfoldable pub insert : Text → V → StrMap V → StrMap V
  insert k v [] = (k, v) ∷ []
  insert k v ((j, w) ∷ m) = if text_eq j k then (j, v) ∷ m else (j, w) ∷ insert k v m

  -- `delete(m, k)`
  unfoldable pub delete : Text → StrMap V → StrMap V
  delete k [] = []
  delete k ((j, w) ∷ m) = let rest = delete k m in if text_eq j k then rest else (j, w) ∷ rest

  abbrev pub has : Text → StrMap V → Bool
  has k m = elim (lookup k m) [ none ↦ false | some v ↦ true ]

  -- What `for _, v := range m` goes through.
  abbrev pub values : StrMap V → List V
  values = map (λ e. e.1)

  pub lookup-insert :
      (k j : Text) (v : V) (m : StrMap V)
      → lookup j (insert k v m) ≡ (if text_eq k j then some v else lookup j m)
  unfolding lookup insert
  lookup-insert k j v [] = refl
  lookup-insert k j v ((i, w) ∷ m) =
      ground (arith, text_eq_iff k j, text_eq_iff i k, text_eq_iff i j, lookup-insert k j v m)

  pub lookup-delete :
      (k j : Text) (m : StrMap V)
      → lookup j (delete k m) ≡ (if text_eq k j then none else lookup j m)
  unfolding lookup delete
  lookup-delete k j [] = ground arith
  lookup-delete k j ((i, w) ∷ m) =
      ground (arith, text_eq_iff k j, text_eq_iff i k, text_eq_iff i j, lookup-delete k j m)

module _ {ℓ} {V : Type ℓ} where
  -- No key stands twice.
  abbrev pub UniqueKeys : StrMap V → Type ℓ
  UniqueKeys [] = Unit
  UniqueKeys ((k, v) ∷ m) = (lookup k m ≡ none) × UniqueKeys m

  pub insert-UniqueKeys :
      (k : Text) (v : V) (m : StrMap V) → UniqueKeys m → UniqueKeys (insert k v m)
  unfolding insert lookup
  insert-UniqueKeys k v [] h = (refl, tt)
  insert-UniqueKeys k v ((j, w) ∷ m) h =
      ground
        (arith, text_eq_iff j k, text_eq_iff k j, lookup-insert k j v m, insert-UniqueKeys k v m)

  pub delete-UniqueKeys : (k : Text) (m : StrMap V) → UniqueKeys m → UniqueKeys (delete k m)
  unfolding delete
  delete-UniqueKeys k [] h = tt
  delete-UniqueKeys k ((j, w) ∷ m) h = ground (arith, lookup-delete k j m, delete-UniqueKeys k m)

-- Whether a number stands in a list, and that none stands twice.
unfoldable pub contains : ℕ → List ℕ → Bool
contains a [] = false
contains a (x ∷ l) = a == x || contains a l

abbrev pub Distinct : List ℕ → Type 0
Distinct [] = Unit {0}
Distinct (x ∷ l) = (contains x l ≡ false) × Distinct l

-- A value of a map stands under a key.
pub key_of_value :
    (a : ℕ) (m : StrMap ℕ)
    → UniqueKeys m
    → contains a (values m) ≡ true
    → (k : Text) × (lookup k m ≡ some a)
unfolding contains lookup
key_of_value a [] h c = cc
key_of_value a ((j, w) ∷ m) h c = elim (Bool-cases (a == w)) [
  | inl e ↦ (j, ground (arith, text_eq_iff j j))
  | inr e ↦ let (k, f) = key_of_value a m h.1 (ground arith) in (k, ground (arith, text_eq_iff j k))
]

pub contains-values :
    (a : ℕ) (k : Text) (m : StrMap ℕ) → lookup k m ≡ some a → contains a (values m) ≡ true
unfolding contains lookup
contains-values a k [] h = cc
contains-values a k ((j, w) ∷ m) h = ground (arith, contains-values a k m)

-- Values that determine their keys are distinct.
pub values-Distinct :
    (key : ℕ → Text) (m : StrMap ℕ)
    → UniqueKeys m
    → ((k : Text) (a : ℕ) → lookup k m ≡ some a → k ≡ key a)
    → Distinct (values m)
unfolding lookup
values-Distinct key [] h held = tt
values-Distinct key ((j, w) ∷ m) h held = (fresh, values-Distinct key m h.1 tail_held)
  where
    tail_held : (k : Text) (a : ℕ) → lookup k m ≡ some a → k ≡ key a
    tail_held k a e = ground (arith, held k a, text_eq_iff j k, h.0)

    fresh : contains w (values m) ≡ false
    fresh = elim (Bool-cases (contains w (values m))) [
      | inr e ↦ e
      | inl e ↦
          let (k, f) = key_of_value w m h.1 e in
          ground (arith, tail_held k w f, held j w, text_eq_iff j j, h.0)
    ]

pub contains-keep_if :
    (p : ℕ → Bool) (b : ℕ) (l : List ℕ) → contains b (keep_if p l) ≡ (contains b l && p b)
unfolding contains keep_if
contains-keep_if p b [] = refl
contains-keep_if p b (x ∷ l) = ground (arith, ==_iff b x, contains-keep_if p b l)

pub keep_if-Distinct : (p : ℕ → Bool) (l : List ℕ) → Distinct l → Distinct (keep_if p l)
unfolding keep_if
keep_if-Distinct p [] d = tt
keep_if-Distinct p (x ∷ l) d = ground (arith, contains-keep_if p x l, keep_if-Distinct p l)

abbrev pub Heap {ℓ} : Type ℓ → Type ℓ
Heap A = ℕ → A

-- Writing the object at an address.
unfoldable pub update {ℓ} : {A : Type ℓ} → Heap A → ℕ → A → Heap A
update h a v b = if a == b then v else h b
