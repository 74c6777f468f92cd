-- ===== src/Trace/Diff.antt =====
-- `setDiff` is the difference of two sets of names, sorted.
use domaintest.Prelude.{
  is_nil, keep, ◌≡◌, refl, sym, ap, ◌∙◌, ◌↔◌, true, false, not, ◌&&◌, List, [], ◌∷◌, arith,
}
use domaintest.Text.Laws.{=?_iff, =?_refl}
use domaintest.Text.Sort.{IsSorted, sort_strings-IsSorted, contains-sort_strings}
use domaintest.Text.{Bytes, contains, ◌=?◌}
use domaintest.Trace.{set_diff}

contains-eq : (x y : Bytes) (b : List Bytes) → (y =? x) ≡ true → contains x b ≡ contains y b
contains-eq x y b h = ap (λ t. contains t b) (sym ((=?_iff y x).0 h))

contains-keep :
    (x : Bytes) (a b : List Bytes)
    → contains x (keep (λ s. not (contains s b)) a) ≡ (contains x a && not (contains x b))
unfolding contains
contains-keep x [] b = refl
contains-keep x (y ∷ a) b = ground (arith, contains-keep x a b, contains-eq x y b)

-- A name is in the difference exactly when it is in the first list and not in the second, and
-- the difference is sorted.
pub contains-set_diff :
    (x : Bytes) (a b : List Bytes)
    → (contains x (set_diff a b) ≡ (contains x a && not (contains x b))) × IsSorted (set_diff a b)
unfolding set_diff
contains-set_diff x a b = (
  contains-sort_strings x (keep (λ s. not (contains s b)) a) ∙ contains-keep x a b,
  sort_strings-IsSorted (keep (λ s. not (contains s b)) a),
)

-- Every name of the first list is in the second.
abbrev pub IsSubset : List Bytes → List Bytes → Type 0
IsSubset a b = (x : Bytes) → contains x a ≡ true → contains x b ≡ true

head-contains : (x : Bytes) (xs : List Bytes) → contains x (x ∷ xs) ≡ true
unfolding contains
head-contains x xs = rw (=?_refl x)

is_nil-of_empty : (xs : List Bytes) → ((x : Bytes) → contains x xs ≡ false) → is_nil xs ≡ true
is_nil-of_empty [] h = refl
is_nil-of_empty (x ∷ xs) h = cc (h x, head-contains x xs)

contains-is_nil : (x : Bytes) (xs : List Bytes) → is_nil xs ≡ true → contains x xs ≡ false
unfolding contains
contains-is_nil x [] h = refl
contains-is_nil x (y ∷ xs) h = cc

pub set_diff-eq-nil_iff : (a b : List Bytes) → (is_nil (set_diff a b) ≡ true) ↔ IsSubset a b
set_diff-eq-nil_iff a b = (
  (λ h x m. ground (arith, contains-is_nil x (set_diff a b) h, (contains-set_diff x a b).0)),
  λ h. is_nil-of_empty (set_diff a b) (λ x. ground (arith, (contains-set_diff x a b).0, h x)),
)
