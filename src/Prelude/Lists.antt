-- ===== src/Prelude/Lists.antt =====
-- Lists measured by native numbers, with Boolean tests on their elements.
use Prim.Native.Nat.{ℕ, zero, suc, ◌+◌, ◌≤◌}
use mathlib.Core.Path.{◌≡◌, refl, ap}
use mathlib.Core.Bool.{Bool, true, false, not, ◌&&◌, ◌||◌}
use mathlib.Core.List.{List, [], ◌∷◌, ◌++◌}
use mathlib.Core.Option.{Option, none, some}
use native.Mathlib.Omega.{arith}
use mathlib.Core.Logic.{◌↔◌, inl, inr}
use domaintest.Prelude.Tests.{if◌then◌else◌, ◌==◌, Bool-cases}

module _ {ℓ} {A : Type ℓ} where
  abbrev pub length : List A → ℕ
  length [] = 0
  length (x ∷ xs) = suc (length xs)

  abbrev pub is_nil : List A → Bool
  is_nil [] = true
  is_nil (x ∷ xs) = false

  abbrev pub drop : ℕ → List A → List A
  drop zero xs = xs
  drop (suc n) [] = []
  drop (suc n) (x ∷ xs) = drop n xs

  abbrev pub take : ℕ → List A → List A
  take zero xs = []
  take (suc n) [] = []
  take (suc n) (x ∷ xs) = x ∷ take n xs

  -- Some element passes the test.
  abbrev pub any : (A → Bool) → List A → Bool
  any p [] = false
  any p (x ∷ xs) = p x || any p xs

  -- Every element passes the test.
  abbrev pub all : (A → Bool) → List A → Bool
  all p [] = true
  all p (x ∷ xs) = p x && all p xs

  -- The elements that pass the test, in order.
  abbrev pub keep : (A → Bool) → List A → List A
  keep p [] = []
  keep p (x ∷ xs) = let rest = keep p xs in if p x then x ∷ rest else rest

  -- The first element that passes the test.
  abbrev pub first : (A → Bool) → List A → Option A
  first p [] = none
  first p (x ∷ xs) = let rest = first p xs in if p x then some x else rest

  -- The last element, or a default.
  abbrev pub last_or : A → List A → A
  last_or d [] = d
  last_or d (x ∷ xs) = last_or x xs

  pub length-append : (xs ys : List A) → length (xs ++ ys) ≡ length xs + length ys
  length-append [] ys = omega arith
  length-append (x ∷ xs) ys = omega (arith, length-append xs ys)

  pub any-append : (p : A → Bool) (xs ys : List A) → any p (xs ++ ys) ≡ (any p xs || any p ys)
  any-append p [] ys = refl
  any-append p (x ∷ xs) ys = ground (arith, any-append p xs ys)

  pub length-keep-le : (p : A → Bool) (xs : List A) → length (keep p xs) ≤ length xs
  length-keep-le p [] = omega arith
  length-keep-le p (x ∷ xs) = ground (arith, length-keep-le p xs)

module _ {ℓ κ} {A : Type ℓ} (P : A → Type κ) where
  abbrev pub All : List A → Type κ
  All [] = Unit
  All (x ∷ xs) = P x × All xs

  -- Some element satisfies the predicate, and it is kept.
  abbrev pub Any : List A → Type (ℓ ⊔ κ)
  Any xs = (a : A) × (pre : List A) × (post : List A) × (xs ≡ pre ++ (a ∷ post)) × P a

  pub All-append : (xs ys : List A) → All xs → All ys → All (xs ++ ys)
  All-append [] ys hx hy = hy
  All-append (x ∷ xs) ys hx hy = (hx.0, All-append xs ys hx.1 hy)

pub All-weaken {ℓ κ μ} :
    {A : Type ℓ} (P : A → Type κ) (Q : A → Type μ)
    → ((a : A) → P a → Q a)
    → (xs : List A) → All P xs
    → All Q xs
All-weaken P Q f [] h = tt
All-weaken P Q f (x ∷ xs) h = (f x h.0, All-weaken P Q f xs h.1)

-- Some element passes the test, with the element at hand.
module _ {ℓ} {A : Type ℓ} (p : A → Bool) where
  pub Any-of-any : (xs : List A) → any p xs ≡ true → Any (λ x. p x ≡ true) xs
  Any-of-any [] h = absurd (ground arith)
  Any-of-any (x ∷ xs) h = elim (Bool-cases (p x)) [
    | inl e ↦ (x, [], xs, refl, e)
    | inr e ↦
        let (a, pre, post, q, f) = Any-of-any xs (ground arith) in
        (a, x ∷ pre, post, ap (◌∷◌ x) q, f)
  ]

  pub any-of-Any : (xs : List A) → Any (λ x. p x ≡ true) xs → any p xs ≡ true
  any-of-Any xs (a, pre, post, q, f) = rw q (ground (arith, any-append p pre (a ∷ post)))

  pub any-iff-Any : (xs : List A) → (any p xs ≡ true) ↔ Any (λ x. p x ≡ true) xs
  any-iff-Any xs = (Any-of-any xs, any-of-Any xs)

-- What the search for the first element finds is in the list and passes the test.
pub first-split {ℓ} :
    {A : Type ℓ} (p : A → Bool) (xs : List A) {a : A}
    → first p xs ≡ some a
    → (pre : List A) × (post : List A) × (xs ≡ pre ++ (a ∷ post)) × (p a ≡ true)
first-split p [] {a} h = absurd (ground (arith, h))
first-split p (x ∷ xs) {a} h = elim (Bool-cases (p x)) [
  | inl e ↦ let q : x ≡ a = ground (arith, h, e) in ([], xs, ap (λ y. y ∷ xs) q, cc (q, e))
  | inr e ↦
      let (pre, post, q, f) = first-split p xs (ground (arith, h, e)) in
      (x ∷ pre, post, ap (◌∷◌ x) q, f)
]

-- How many pass a test: none exactly when not one does, and as many as pass a weaker test exactly
-- when all that pass that one do.
module _ {ℓ} {A : Type ℓ} where
  pub length-keep-any : (p : A → Bool) (xs : List A) → (length (keep p xs) == 0) ≡ not (any p xs)
  length-keep-any p [] = refl
  length-keep-any p (x ∷ xs) = ground (arith, length-keep-any p xs)

  pub length-keep-all :
      (p q : A → Bool)
      → ((a : A) → p a ≡ true → q a ≡ true)
      → (xs : List A)
      → (length (keep p xs) ≤ length (keep q xs))
        × ((length (keep p xs) == length (keep q xs)) ≡ all (λ a. not (q a) || p a) xs)
  length-keep-all p q h [] = ground arith
  length-keep-all p q h (x ∷ xs) = ground (arith, h x, length-keep-all p q h xs)
