-- ===== src/Ws/Sets/Tidy.antt =====
-- What the operations on the maps of sets keep.
use livechat_server.Base.{
  ℕ, ◌≡◌, ◌≢◌, refl, sym, ◌∙◌, not, ◌&&◌, List, [], ◌∷◌, Option, none, some, arith, lookup,
  contains, Distinct, UniqueKeys, if◌then◌else◌, ◌==◌, Option-cases, inl, inr, is_nil, ==_iff,
  text_eq, text_eq_iff, lookup-insert, lookup-delete, insert-UniqueKeys, delete-UniqueKeys,
}
use livechat_server.Ws.Messages.{Uuid}
use livechat_server.Ws.Sets.{
  Table, mark, unmark, set_of, add_under, put_rest, remove_under, remove_everywhere, in_set, IsTidy,
  contains-unmark, mark-Distinct, unmark-Distinct,
}

mark_filled : (c : ℕ) (l : List ℕ) → mark c l ≢ []
unfolding mark contains
mark_filled c [] h = ground arith
mark_filled c (x ∷ l) h = ground arith

pub add_under-IsTidy : (k : Uuid) (c : ℕ) (m : Table) → IsTidy m → IsTidy (add_under k c m)
unfolding add_under
add_under-IsTidy k c m t = record {
  unique = insert-UniqueKeys k (mark c (set_of k m)) m t.unique;
  filled = λ j h.
      ground
        (arith, lookup-insert k j (mark c (set_of k m)) m, mark_filled c (set_of k m), t.filled j);
  distinct = λ j.
      unfold set_of in
      ground (
        arith,
        lookup-insert k j (mark c (set_of k m)) m,
        mark-Distinct c (set_of k m),
        t.distinct j,
        t.distinct k,
      );
}

lookup-put_rest :
    (k j : Uuid) (rest : List ℕ) (m : Table)
    → lookup j (put_rest k rest m)
      ≡ (if text_eq k j then (if is_nil rest then none else some rest) else lookup j m)
lookup-put_rest k j [] m = lookup-delete k j m
lookup-put_rest k j (x ∷ rest) m = lookup-insert k j (x ∷ rest) m

pub in_set-remove_under :
    (k j : Uuid) (c b : ℕ) (m : Table)
    → in_set j b (remove_under k c m) ≡ (in_set j b m && not (text_eq k j && b == c))
unfolding in_set remove_under set_of contains
in_set-remove_under k j c b m = elim (Option-cases (lookup k m)) [
  | inl e ↦ ground (arith, text_eq_iff k j)
  | inr (l, e) ↦
      ground (arith, lookup-put_rest k j (unmark c l) m, contains-unmark b c l, text_eq_iff k j)
]

put_rest-IsTidy :
    (k : Uuid) (rest : List ℕ) (m : Table) → Distinct rest → IsTidy m → IsTidy (put_rest k rest m)
put_rest-IsTidy k [] m d t = record {
  unique = delete-UniqueKeys k m t.unique;
  filled = λ j h. ground (arith, lookup-delete k j m, t.filled j);
  distinct = λ j. unfold set_of in ground (arith, lookup-delete k j m, t.distinct j);
}
put_rest-IsTidy k (x ∷ rest) m d t = record {
  unique = insert-UniqueKeys k (x ∷ rest) m t.unique;
  filled = λ j h. ground (arith, lookup-insert k j (x ∷ rest) m, t.filled j);
  distinct = λ j. unfold set_of in ground (arith, lookup-insert k j (x ∷ rest) m, t.distinct j);
}

pub remove_under-IsTidy : (k : Uuid) (c : ℕ) (m : Table) → IsTidy m → IsTidy (remove_under k c m)
unfolding remove_under
remove_under-IsTidy k c m t = elim (Option-cases (lookup k m)) [
  | inl e ↦ rw (e, remove_under) t
  | inr (l, e) ↦
      rw (e, remove_under)
        (put_rest-IsTidy k (unmark c l) m
          (unmark-Distinct c l (unfold set_of in ground (arith, t.distinct k))) t)
]

-- What is left of a set.
abbrev left_of : ℕ → Option (List ℕ) → Option (List ℕ)
left_of c none = none
left_of c (some l) =
    if contains c l then (if is_nil (unmark c l) then none else some (unmark c l)) else some l

lookup-remove_everywhere :
    (j : Uuid) (c : ℕ) (m : Table)
    → UniqueKeys m
    → lookup j (remove_everywhere c m) ≡ left_of c (lookup j m)
unfolding lookup remove_everywhere
lookup-remove_everywhere j c [] h = refl
lookup-remove_everywhere j c ((k, l) ∷ m) h =
    ground (arith, text_eq_iff k j, lookup-remove_everywhere j c m h.1)

remove_everywhere-UniqueKeys :
    (c : ℕ) (m : Table) → UniqueKeys m → UniqueKeys (remove_everywhere c m)
unfolding remove_everywhere
remove_everywhere-UniqueKeys c [] h = tt
remove_everywhere-UniqueKeys c ((k, l) ∷ m) h =
    ground (arith, lookup-remove_everywhere k c m h.1, remove_everywhere-UniqueKeys c m h.1)

left_of_filled : (c : ℕ) (o : Option (List ℕ)) → o ≢ some [] → left_of c o ≢ some []
left_of_filled c none f h = cc
left_of_filled c (some l) f h = elim (Option-cases (left_of c (some l))) [
  | inl e ↦ cc
  | inr (x, e) ↦ ground arith
]

left_of-Distinct :
    (j : Uuid) (c : ℕ) (m : Table) → IsTidy m → Distinct (set_of j (remove_everywhere c m))
unfolding set_of
left_of-Distinct j c m t = elim (Option-cases (lookup j m)) [
  | inl e ↦ ground (arith, lookup-remove_everywhere j c m t.unique)
  | inr (l, e) ↦
      ground (arith, lookup-remove_everywhere j c m t.unique, t.distinct j, unmark-Distinct c l)
]

pub remove_everywhere-IsTidy : (c : ℕ) (m : Table) → IsTidy m → IsTidy (remove_everywhere c m)
remove_everywhere-IsTidy c m t = record {
  unique = remove_everywhere-UniqueKeys c m t.unique;
  filled = λ j h.
      left_of_filled c (lookup j m) (t.filled j)
        (sym (lookup-remove_everywhere j c m t.unique) ∙ h);
  distinct = λ j. left_of-Distinct j c m t;
}

pub in_set-remove_everywhere :
    (j : Uuid) (c b : ℕ) (m : Table)
    → UniqueKeys m
    → in_set j b (remove_everywhere c m) ≡ (in_set j b m && not (b == c))
unfolding in_set set_of contains
in_set-remove_everywhere j c b m h = elim (Option-cases (lookup j m)) [
  | inl e ↦ ground (arith, lookup-remove_everywhere j c m h)
  | inr (l, e) ↦ ground (arith, lookup-remove_everywhere j c m h, contains-unmark b c l, ==_iff b c)
]
