-- ===== src/Text/Sort.antt =====
-- `sort.Strings`: bytes compared in lexicographic order. The sorted list of a multiset of texts is
-- unique, so an insertion sort stands for Go's algorithm.
use domaintest.Prelude.{
  Bool, true, false, ◌||◌, ◌&&◌, List, [], ◌∷◌, ◌≡◌, refl, arith, ltb, ◌==◌, if◌then◌else◌,
  Bool-cases, inl, inr, length, suc,
}
use domaintest.Text.{Bytes, ◌=?◌, contains}

-- a <= b
unfoldable pub text_le : Bytes → Bytes → Bool
text_le [] b = true
text_le (x ∷ a) [] = false
text_le (x ∷ a) (y ∷ b) = ltb x y || (x == y && text_le a b)

pub text_le_total : (a b : Bytes) → text_le a b ≡ false → text_le b a ≡ true
unfolding text_le
text_le_total [] b h = cc
text_le_total (x ∷ a) [] h = refl
text_le_total (x ∷ a) (y ∷ b) h = ground (arith, text_le_total a b)

unfoldable pub insert : Bytes → List Bytes → List Bytes
unfolding text_le
insert x [] = x ∷ []
insert x (y ∷ ys) = let rest = insert x ys in if text_le x y then x ∷ y ∷ ys else y ∷ rest

unfoldable pub sort_strings : List Bytes → List Bytes
unfolding insert
sort_strings [] = []
sort_strings (x ∷ xs) = insert x (sort_strings xs)

abbrev Bounds : Bytes → List Bytes → Type 0
Bounds x [] = Unit
Bounds x (y ∷ ys) = text_le x y ≡ true

abbrev pub IsSorted : List Bytes → Type 0
IsSorted [] = Unit
IsSorted (x ∷ xs) = Bounds x xs × IsSorted xs

insert-Bounds :
    (x y : Bytes) (ys : List Bytes) → text_le y x ≡ true → Bounds y ys → Bounds y (insert x ys)
unfolding insert
insert-Bounds x y [] h b = h
insert-Bounds x y (z ∷ ys) h b = elim (Bool-cases (text_le x z)) [ inl p ↦ rw p h | inr p ↦ rw p b ]

insert-IsSorted : (x : Bytes) (xs : List Bytes) → IsSorted xs → IsSorted (insert x xs)
unfolding insert
insert-IsSorted x [] s = (tt, tt)
insert-IsSorted x (y ∷ ys) s = elim (Bool-cases (text_le x y)) [
  | inl p ↦ rw p (p, s)
  | inr p ↦ rw p (insert-Bounds x y ys (text_le_total x y p) s.0, insert-IsSorted x ys s.1)
]

pub sort_strings-IsSorted : (xs : List Bytes) → IsSorted (sort_strings xs)
unfolding sort_strings
sort_strings-IsSorted [] = tt
sort_strings-IsSorted (x ∷ xs) = insert-IsSorted x _ (sort_strings-IsSorted xs)

contains-insert :
    (a x : Bytes) (xs : List Bytes) → contains a (insert x xs) ≡ (x =? a || contains a xs)
unfolding insert contains
contains-insert a x [] = refl
contains-insert a x (y ∷ ys) = ground (arith, contains-insert a x ys)

-- Sorting keeps the members.
pub contains-sort_strings :
    (a : Bytes) (xs : List Bytes) → contains a (sort_strings xs) ≡ contains a xs
unfolding sort_strings contains
contains-sort_strings a [] = refl
contains-sort_strings a (x ∷ xs) =
    ground (arith, contains-insert a x (sort_strings xs), contains-sort_strings a xs)

length-insert : (x : Bytes) (xs : List Bytes) → length (insert x xs) ≡ suc (length xs)
unfolding insert
length-insert x [] = refl
length-insert x (y ∷ ys) = ground (arith, length-insert x ys)

pub length-sort_strings : (xs : List Bytes) → length (sort_strings xs) ≡ length xs
unfolding sort_strings
length-sort_strings [] = refl
length-sort_strings (x ∷ xs) =
    ground (arith, length-insert x (sort_strings xs), length-sort_strings xs)
