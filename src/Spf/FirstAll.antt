-- ===== src/Spf/FirstAll.antt =====
-- Which `all` mechanism a record has.
use domaintest.Text.{Bytes, ◌=?◌, lit}
use domaintest.Spf.Terms.{SpfTerm, record_all}
use domaintest.Prelude.{
  Bool-cases, any, ◌≡◌, refl, ap, ◌⊎◌, inl, inr, Bool, true, false, not, ◌&&◌, List, [], ◌∷◌, ◌++◌,
  arith,
}

abbrev pub is_all : SpfTerm → Bool
is_all t = t.name =? lit "all" && not t.modifier

-- The `all` mechanism, with its qualifier, that a record ends with: the first one, if there is one.
abbrev pub IsFirstAll : Bytes → List SpfTerm → Type 0
IsFirstAll own terms =
    ((own ≡ []) × (any is_all terms ≡ false))
    ⊎ ((t : SpfTerm) × (pre : List SpfTerm) × (post : List SpfTerm) × (terms ≡ pre ++ (t ∷ post))
        × (is_all t ≡ true)
        × (any is_all pre ≡ false)
        × (own ≡ t.qualifier ++ lit "all"))

IsFirstAll-cons :
    (own : Bytes) (t : SpfTerm) (terms : List SpfTerm)
    → is_all t ≡ false
    → IsFirstAll own terms
    → IsFirstAll own (t ∷ terms)
IsFirstAll-cons own t terms h (inl (e, n)) = inl (e, ground (arith, h, n))
IsFirstAll-cons own t terms h (inr (u, pre, post, q, a, n, e)) =
    inr (u, t ∷ pre, post, ap (◌∷◌ t) q, a, ground (arith, h, n), e)

record_all-here :
    (t : SpfTerm) (rest : List SpfTerm)
    → is_all t ≡ true
    → record_all (t ∷ rest) ≡ t.qualifier ++ lit "all"
unfolding record_all
record_all-here t rest h = rw h refl

record_all-later :
    (t : SpfTerm) (rest : List SpfTerm) → is_all t ≡ false → record_all (t ∷ rest) ≡ record_all rest
unfolding record_all
record_all-later t rest h = rw h refl

record_all-nil : record_all [] ≡ []
unfolding record_all
record_all-nil = refl

pub record_all-IsFirstAll : (terms : List SpfTerm) → IsFirstAll (record_all terms) terms
record_all-IsFirstAll [] = inl (record_all-nil, refl)
record_all-IsFirstAll (t ∷ rest) = elim (Bool-cases (is_all t)) [
  | inl h ↦ inr (t, [], rest, refl, h, refl, record_all-here t rest h)
  | inr h ↦ rw (record_all-later t rest h) (IsFirstAll-cons _ t rest h (record_all-IsFirstAll rest))
]
