-- ===== src/Ws/Sets.antt =====
-- The maps of maps of internal/ws/hub.go: under a UUID, a set of connections. A set is a list of
-- addresses that holds none twice.
pub mod Tidy
use livechat_server.Base.{
  ℕ, ◌≡◌, ◌≢◌, refl, Bool, true, false, not, ◌&&◌, ◌||◌, List, [], ◌∷◌, Text, Option, none, some,
  arith, lookup, insert, delete, StrMap, contains, Distinct, UniqueKeys, keep_if, if◌then◌else◌,
  ◌==◌, is_nil, ==_iff, text_eq, text_eq_iff, lookup-insert, lookup-delete, insert-UniqueKeys,
  delete-UniqueKeys,
}
use livechat_server.Ws.Messages.{Uuid}

abbrev pub Table : Type 0
Table = StrMap (List ℕ)

-- `set[c] = true`
unfoldable pub mark : ℕ → List ℕ → List ℕ
mark c l = if contains c l then l else c ∷ l

-- `delete(set, c)`
unfoldable pub unmark : ℕ → List ℕ → List ℕ
unmark c l = keep_if (λ x. not (c == x)) l

-- `m[k]`, where a missing key gives the nil map.
unfoldable pub set_of : Uuid → Table → List ℕ
set_of k m = elim (lookup k m) [ none ↦ [] | some l ↦ l ]

-- A set is made where there is none, and gets the connection.
unfoldable pub add_under : Uuid → ℕ → Table → Table
add_under k c m = insert k (mark c (set_of k m)) m

abbrev put_rest : Uuid → List ℕ → Table → Table
put_rest k rest m = if is_nil rest then delete k m else insert k rest m

-- The connection leaves the set, and an empty set goes.
unfoldable pub remove_under : Uuid → ℕ → Table → Table
remove_under k c m = elim (lookup k m) [ none ↦ m | some l ↦ put_rest k (unmark c l) m ]

-- The connection leaves every set.
unfoldable pub remove_everywhere : ℕ → Table → Table
remove_everywhere c [] = []
remove_everywhere c ((k, l) ∷ m) =
    let rest = remove_everywhere c m in
    if contains c l
    then (if is_nil (unmark c l) then rest else (k, unmark c l) ∷ rest)
    else (k, l) ∷ rest

-- Whether a connection stands in the set under a UUID.
unfoldable pub in_set : Uuid → ℕ → Table → Bool
in_set k c m = contains c (set_of k m)

-- A map that keeps each key once, no empty set, and no connection twice in a set.
pub record IsTidy (m : Table) : Type 0 where
  pub unique : UniqueKeys m
  pub filled : (k : Uuid) → lookup k m ≢ some []
  pub distinct : (k : Uuid) → Distinct (set_of k m)

pub contains-mark : (b c : ℕ) (l : List ℕ) → contains b (mark c l) ≡ (b == c || contains b l)
unfolding mark contains
contains-mark b c l = ground (arith, ==_iff b c)

pub contains-unmark :
    (b c : ℕ) (l : List ℕ) → contains b (unmark c l) ≡ (contains b l && not (b == c))
unfolding unmark keep_if contains
contains-unmark b c [] = refl
contains-unmark b c (x ∷ l) = ground (arith, ==_iff b x, ==_iff b c, contains-unmark b c l)

pub mark-Distinct : (c : ℕ) (l : List ℕ) → Distinct l → Distinct (mark c l)
unfolding mark contains
mark-Distinct c l d = ground arith

pub unmark-Distinct : (c : ℕ) (l : List ℕ) → Distinct l → Distinct (unmark c l)
unfolding unmark keep_if
unmark-Distinct c [] d = tt
unmark-Distinct c (x ∷ l) d = ground (arith, contains-unmark x c l, unmark-Distinct c l)

pub in_set-add_under :
    (k j : Uuid) (c b : ℕ) (m : Table)
    → in_set j b (add_under k c m) ≡ ((text_eq k j && b == c) || in_set j b m)
unfolding in_set add_under set_of contains
in_set-add_under k j c b m = ground (
  arith,
  lookup-insert k j (mark c (set_of k m)) m,
  contains-mark b c (set_of k m),
  text_eq_iff k j,
)
