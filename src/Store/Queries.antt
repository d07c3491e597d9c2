-- ===== src/Store/Queries.antt =====
-- What the SQL of internal/store/store.go uses of a database: selections, joins and limits over
-- lists of rows, and how a call ends.
use livechat_server.Base.{
  ℕ, zero, suc, Bool, true, false, ◌&&◌, ◌||◌, List, [], ◌∷◌, ◌++◌, map, Text, Option, none, some,
  if◌then◌else◌, keep_if,
}
use livechat_server.Store.Models.{Uuid}

-- What the environment gives to a call: the value of uuid.New, the database's now(), whether the
-- statement reaches the database, whether its answer comes back, and a row where the query leaves one
-- open.
pub record Call : Type 0 where
  pub id : Uuid
  pub now : ℕ
  pub reached : Bool
  pub answered : Bool
  -- which of the rows comes first, where a query without an order finds more than one
  pub choice : ℕ

-- `not_found` is ErrNotFound, and `failed` any other error.
pub data Outcome {ℓ} (A : Type ℓ) : Type ℓ where
  ok : A → Outcome A
  not_found failed : Outcome A

-- What PostgreSQL does with texts: lower(), ILIKE and the order of the database's collation.
pub record Dialect : Type 0 where
  pub lower : Text → Text
  pub ilike : Text → Text → Bool
  pub text_order : Text → Text → Bool

module _ {ℓ} {A : Type ℓ} where
  -- A row that is asked for, and there is at most one or the first is taken.
  unfoldable pub find_first : (A → Bool) → List A → Option A
  find_first p [] = none
  find_first p (x ∷ l) = if p x then some x else find_first p l

  unfoldable pub any : (A → Bool) → List A → Bool
  any p [] = false
  any p (x ∷ l) = p x || any p l

  abbrev pub take : ℕ → List A → List A
  take zero l = []
  take (suc n) [] = []
  take (suc n) (x ∷ l) = x ∷ take n l

  abbrev pub or_not_found : Option A → Outcome A
  or_not_found none = not_found
  or_not_found (some a) = ok a

  -- One of the rows.
  unfoldable pub pick : ℕ → List A → Option A
  pick n [] = none
  pick n (x ∷ []) = some x
  pick zero (x ∷ y ∷ l) = some x
  pick (suc n) (x ∷ y ∷ l) = pick n (y ∷ l)

  -- A query: its answer, if it reaches the database and comes back.
  unfoldable pub query : Call → Outcome A → Outcome A
  query k o = if k.reached && k.answered then o else failed

  -- The end of a call that came to nothing.
  abbrev pub unless_answered : Bool → Outcome A → Outcome A
  unless_answered true o = o
  unless_answered false o = failed

-- A statement that changes the tables: a lost answer is an error, but the change is made.
unfoldable pub statement {ℓ κ} :
    {T : Type ℓ} {A : Type κ} → Call → T × Outcome A → T → T × Outcome A
statement k (t', o) t = if k.reached then (t', unless_answered k.answered o) else (t, failed)

module _ {ℓ κ} {A : Type ℓ} {B : Type κ} (on : A → B → Bool) where
  unfoldable pub inner_join : List A → List B → List (A × B)
  inner_join [] bs = []
  inner_join (a ∷ as') bs = map (λ b. (a, b)) (keep_if (on a) bs) ++ inner_join as' bs

  -- A row that meets none is kept once, with NULLs.
  abbrev pub padded : A → List B → List (A × Option B)
  padded a [] = (a, none) ∷ []
  padded a (b ∷ bs) = map (λ x. (a, some x)) (b ∷ bs)

  unfoldable pub left_join : List A → List B → List (A × Option B)
  left_join [] bs = []
  left_join (a ∷ as') bs = padded a (keep_if (on a) bs) ++ left_join as' bs
