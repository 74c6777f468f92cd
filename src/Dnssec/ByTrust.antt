-- ===== src/Dnssec/ByTrust.antt =====
-- The state of a name that is not a zone apex, from the validation of its answers.
use domaintest.Prelude.{
  ltb, if◌then◌else◌, any, fold_perm, ℕ, ◌≡◌, refl, ◌≢◌, Bool, ◌&&◌, [], ◌∷◌, arith,
}
use mathlib.Core.List.{Perm}
use domaintest.Dnssec.{DnssecState, count_trust, tally_trust, classify_by_trust}
use domaintest.Records.{Lookup, LookupMap, answered, is_secure, is_insecure}

tally_trust_comm :
    (x y : Lookup) (c : ℕ × ℕ) → tally_trust x (tally_trust y c) ≡ tally_trust y (tally_trust x c)
unfolding tally_trust
tally_trust_comm x y c = ground arith

pub count_trust-perm : {m m' : LookupMap} → Perm m m' → count_trust m ≡ count_trust m'
unfolding count_trust
count_trust-perm =
    fold_perm count_trust (λ e. tally_trust e.1) (λ x xs. refl) (λ x y. tally_trust_comm x.1 y.1)
      (hlevel)

-- An entry whose answer the resolver validated, or found unsigned.
abbrev pub has_secure : LookupMap → Bool
has_secure = any (λ e. answered e.1 && is_secure e.1.trust)

abbrev pub has_insecure : LookupMap → Bool
has_insecure = any (λ e. answered e.1 && is_insecure e.1.trust)

count_trust-pos :
    (m : LookupMap)
    → (ltb 0 (count_trust m).0 ≡ has_secure m) × (ltb 0 (count_trust m).1 ≡ has_insecure m)
unfolding count_trust
count_trust-pos [] = ground arith
count_trust-pos ((k, l) ∷ m) = ground (arith, count_trust-pos m)

-- One insecure answer makes the name insecure; it is secure if an answer is and none is insecure,
-- and unknown if no answer carries a verdict. So the order of the map's entries does not matter.
pub classify_by_trust-perm :
    {m m' : LookupMap}
    → Perm m m'
    → (classify_by_trust m ≡ classify_by_trust m')
      × ((classify_by_trust m).state ≡ (
          if has_insecure m
          then DnssecState.insecure
          else if has_secure m
          then DnssecState.secure
          else DnssecState.unknown))
unfolding classify_by_trust
classify_by_trust-perm {m} p = (rw (count_trust-perm p), ground (arith, count_trust-pos m))

-- The trust of the answers alone is never called a broken chain.
pub classify_by_trust-ne-bogus : (m : LookupMap) → (classify_by_trust m).state ≢ DnssecState.bogus
unfolding classify_by_trust
classify_by_trust-ne-bogus m h = ground (arith, h)
