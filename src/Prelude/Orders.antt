-- ===== src/Prelude/Orders.antt =====
-- A fold whose steps commute does not see the order of the list: what a loop over a Go map needs.
use mathlib.Core.Bool.{Bool, false, ◌||◌}
use native.Mathlib.Omega.{arith}
use domaintest.Prelude.Lists.{any, is_nil}
use mathlib.Core.List.{List, ◌∷◌, Perm, Permᴰ}
use mathlib.Core.Logic.{∥∥₁_elim}
use mathlib.Core.Path.{◌≡◌, refl, ◌∙◌, ap₂}

module _ {ℓ κ} {A : Type ℓ} {B : Type κ} (f : List A → B) (g : A → B → B)
    (step : (x : A) (xs : List A) → f (x ∷ xs) ≡ g x (f xs))
    (comm : (x y : A) (b : B) → g x (g y b) ≡ g y (g x b)) where
  fold_permᴰ : {xs ys : List A} → Permᴰ xs ys → f xs ≡ f ys
  fold_permᴰ Permᴰ.nil = refl
  fold_permᴰ (Permᴰ.cons {a} {b} {l₁} {l₂} e p) = rw (step a l₁, step b l₂) (ap₂ g e (fold_permᴰ p))
  fold_permᴰ (Permᴰ.swap {a} {b} {a'} {b'} {l} e h) =
      rw (← e, ← h) (rw (step a (b ∷ l), step b l, step b (a ∷ l), step a l) (comm a b (f l)))
  fold_permᴰ (Permᴰ.trans p q) = fold_permᴰ p ∙ fold_permᴰ q

  pub fold_perm : IsSet B → {xs ys : List A} → Perm xs ys → f xs ≡ f ys
  fold_perm s {xs} {ys} p = ∥∥₁_elim p (s (f xs) (f ys)) fold_permᴰ

-- Whether some element passes a test, and whether there is an element, do not depend on the order.
pub any-perm {ℓ} : {A : Type ℓ} (p : A → Bool) {xs ys : List A} → Perm xs ys → any p xs ≡ any p ys
any-perm p = fold_perm (any p) (λ x b. p x || b) (λ x xs. refl) (λ x y b. ground arith) (hlevel)

pub is_nil-perm {ℓ} : {A : Type ℓ} {xs ys : List A} → Perm xs ys → is_nil xs ≡ is_nil ys
is_nil-perm = fold_perm is_nil (λ x b. false) (λ x xs. refl) (λ x y b. refl) (hlevel)
