-- ===== src/Text/Laws.antt =====
-- The equality test of texts decides equality, and membership goes through appending.
use domaintest.Prelude.{true, false, ◌||◌, List, [], ◌∷◌, ◌++◌, ◌≡◌, ◌↔◌, refl, arith, ◌≢◌}
use domaintest.Text.{Bytes, ◌=?◌, contains, first_non_empty}

pub =?_iff : (a b : Bytes) → ((a =? b) ≡ true) ↔ (a ≡ b)
unfolding ◌=?◌
=?_iff (x ∷ a) (y ∷ b) = ground (arith, =?_iff a b)
=?_iff _ _ = ground arith

pub =?_refl : (a : Bytes) → (a =? a) ≡ true
=?_refl a = (=?_iff a a).1 refl

pub =?_comm : (a b : Bytes) → (a =? b) ≡ (b =? a)
unfolding ◌=?◌
=?_comm (x ∷ a) (y ∷ b) = ground (arith, =?_comm a b)
=?_comm [] [] = refl
=?_comm [] (y ∷ b) = refl
=?_comm (x ∷ a) [] = refl

pub contains-append :
    (x : Bytes) (xs ys : List Bytes) → contains x (xs ++ ys) ≡ (contains x xs || contains x ys)
unfolding contains
contains-append x [] ys = refl
contains-append x (z ∷ xs) ys = ground (arith, contains-append x xs ys)

-- No text stands twice in the list.
abbrev pub IsDistinct : List Bytes → Type 0
IsDistinct [] = Unit
IsDistinct (x ∷ xs) = (contains x xs ≡ false) × IsDistinct xs

pub IsDistinct-concat :
    (xs : List Bytes) (x : Bytes)
    → IsDistinct xs
    → contains x xs ≡ false
    → IsDistinct (xs ++ x ∷ [])
unfolding contains
IsDistinct-concat [] x d h = (refl, tt)
IsDistinct-concat (y ∷ xs) x d h = (
  ground (arith, contains-append y xs (x ∷ []), =?_comm x y),
  IsDistinct-concat xs x d.1 (ground arith),
)

pub first_non_empty-two : (a b : Bytes) → a ≢ [] → first_non_empty (a ∷ b ∷ []) ≡ a
unfolding first_non_empty
first_non_empty-two [] b h = absurd (h refl)
first_non_empty-two (x ∷ a) b h = refl
