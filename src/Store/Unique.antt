-- ===== src/Store/Unique.antt =====
-- Lists of rows in which no two are related, and what a list of rows has.
use livechat_server.Base.{
  ◌≡◌, refl, Bool, true, false, ◌||◌, List, [], ◌∷◌, ◌++◌, map, if◌then◌else◌, keep_if, arith, All,
  Bool-cases, inl, inr, none, some,
}
use livechat_server.Store.Queries.{any, find_first}

module _ {ℓ} {A : Type ℓ} (r : A → A → Bool) where
  abbrev pub NoTwo : List A → Type 0
  NoTwo [] = Unit {0}
  NoTwo (x ∷ l) = (any (r x) l ≡ false) × NoTwo l

module _ {ℓ} {A : Type ℓ} where
  pub any-append : (p : A → Bool) (l m : List A) → any p (l ++ m) ≡ (any p l || any p m)
  unfolding any
  any-append p [] m = refl
  any-append p (x ∷ l) m = ground (arith, any-append p l m)

  pub any-one : (p : A → Bool) (x : A) → any p (x ∷ []) ≡ p x
  unfolding any
  any-one p x = ground arith

  pub any-append_one :
      (p : A → Bool) (l : List A) (x : A) → any p l ≡ true → any p (l ++ x ∷ []) ≡ true
  any-append_one p l x h = ground (arith, any-append p l (x ∷ []))

  pub any-keep_if : (p q : A → Bool) (l : List A) → any p l ≡ false → any p (keep_if q l) ≡ false
  unfolding any keep_if
  any-keep_if p q [] h = refl
  any-keep_if p q (x ∷ l) h = ground (arith, any-keep_if p q l)

  pub keep_if_none : (p : A → Bool) (l : List A) → any p l ≡ false → keep_if p l ≡ []
  unfolding keep_if any
  keep_if_none p [] h = refl
  keep_if_none p (x ∷ l) h = ground (arith, keep_if_none p l)

  pub any_imp :
      (p q : A → Bool) (l : List A)
      → ((x : A) → p x ≡ true → q x ≡ true)
      → any q l ≡ false
      → any p l ≡ false
  unfolding any
  any_imp p q [] f h = refl
  any_imp p q (x ∷ l) f h = ground (arith, f x, any_imp p q l f)

  pub find_first-append_one :
      (p : A → Bool) (l : List A) (x : A)
      → find_first p l ≡ none
      → find_first p (l ++ x ∷ []) ≡ (if p x then some x else none)
  unfolding find_first
  find_first-append_one p [] x h = refl
  find_first-append_one p (y ∷ l) x h = ground (arith, find_first-append_one p l x)

  pub find_first-none : (p : A → Bool) (l : List A) → any p l ≡ false → find_first p l ≡ none
  unfolding find_first any
  find_first-none p [] h = refl
  find_first-none p (y ∷ l) h = ground (arith, find_first-none p l)

  pub find_first-append :
      (p : A → Bool) (l m : List A) (x : A)
      → find_first p l ≡ some x
      → find_first p (l ++ m) ≡ some x
  unfolding find_first
  find_first-append p [] m x h = cc
  find_first-append p (y ∷ l) m x h = ground (arith, find_first-append p l m x)

  module _ (r : A → A → Bool) where
    pub NoTwo-keep_if : (q : A → Bool) (l : List A) → NoTwo r l → NoTwo r (keep_if q l)
    unfolding keep_if
    NoTwo-keep_if q [] h = tt
    NoTwo-keep_if q (x ∷ l) h = ground (arith, any-keep_if (r x) q l, NoTwo-keep_if q l h.1)

    -- A row that is related to none may be put behind the others.
    pub NoTwo-append_one :
        (l : List A) (x : A)
        → ((a b : A) → r a b ≡ r b a)
        → NoTwo r l
        → any (r x) l ≡ false
        → NoTwo r (l ++ x ∷ [])
    unfolding any
    NoTwo-append_one [] x sym_r h e = (refl, tt)
    NoTwo-append_one (y ∷ l) x sym_r h e = ground (
      arith,
      any-append (r y) l (x ∷ []),
      any-one (r y) x,
      sym_r x y,
      NoTwo-append_one l x sym_r h.1,
    )

    any-map_same :
        (f : A → A) (x : A) (l : List A)
        → ((a b : A) → r (f a) (f b) ≡ r a b)
        → any (r (f x)) (map f l) ≡ any (r x) l
    unfolding any
    any-map_same f x [] h = refl
    any-map_same f x (y ∷ l) h = ground (arith, h x y, any-map_same f x l h)

    pub NoTwo-map :
        (f : A → A) (l : List A)
        → ((a b : A) → r (f a) (f b) ≡ r a b)
        → NoTwo r l
        → NoTwo r (map f l)
    NoTwo-map f [] same h = tt
    NoTwo-map f (x ∷ l) same h = (rw (any-map_same f x l same) h.0, NoTwo-map f l same h.1)

module _ {ℓ κ} {A : Type ℓ} (P : A → Type κ) where
  pub All-keep_if : (q : A → Bool) (l : List A) → All P l → All P (keep_if q l)
  unfolding keep_if
  All-keep_if q [] h = tt
  All-keep_if q (x ∷ l) h = elim (Bool-cases (q x)) [
    | inl e ↦ rw (e, keep_if) (h.0, All-keep_if q l h.1)
    | inr e ↦ rw (e, keep_if) (All-keep_if q l h.1)
  ]

  pub All-imp {μ} : (Q : A → Type μ) (l : List A) → ((x : A) → P x → Q x) → All P l → All Q l
  All-imp Q [] f h = tt
  All-imp Q (x ∷ l) f h = (f x h.0, All-imp Q l f h.1)
