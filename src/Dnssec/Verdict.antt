-- ===== src/Dnssec/Verdict.antt =====
-- What each DNSSEC state says of the lookups it was derived from.
use domaintest.Prelude.{
  Bool-cases, Option-cases, first, All, ◌≡◌, ap, ◌≢◌, ◌↔◌, ◌⊎◌, inl, inr, Bool, true, false, none,
  some, List, [], ◌∷◌, ◌++◌, map, arith,
}
use mathlib.Core.Path.{subst}
use domaintest.Dnssec.{
  DnssecState, DnssecReport, BogusProbe, apex_types, first_failed, name_does_not_exist,
  classify_answers, classify_dnssec, classify_failed, unsigned_delegation, published,
}
use domaintest.Records.{
  Lookup, LookupMap, Trust, get, answered, has_records, is_failure, is_nxrrset,
}

-- Every lookup that the classification reads, in its order.
abbrev pub lookups_read : Lookup → Lookup → LookupMap → List Lookup
lookups_read ds dnskey apex = map (get apex) apex_types ++ (ds ∷ dnskey ∷ [])

-- None of them ended in a failure.
abbrev pub NoneFailed : Lookup → Lookup → LookupMap → Type 0
NoneFailed ds dnskey apex = All (λ l. is_failure l.status ≡ false) (lookups_read ds dnskey apex)

first-eq-none_iff :
    {A : Type 0} (p : A → Bool) (xs : List A) → (first p xs ≡ none) ↔ All (λ x. p x ≡ false) xs
first-eq-none_iff p [] = ground arith
first-eq-none_iff p (x ∷ xs) = ground (arith, first-eq-none_iff p xs)

pub first_failed-eq-none_iff :
    (ds dnskey : Lookup) (apex : LookupMap)
    → (first_failed ds dnskey apex ≡ none) ↔ NoneFailed ds dnskey apex
unfolding first_failed
first_failed-eq-none_iff ds dnskey apex =
    first-eq-none_iff (λ l. is_failure l.status) (lookups_read ds dnskey apex)

-- The first element that passes a test, with what stands before it.
pub record IsFirst {A : Type 0} (p : A → Bool) (xs : List A) (a : A) : Type 0 where
  pub before : List A
  pub after : List A
  pub splits : xs ≡ before ++ (a ∷ after)
  pub passes : p a ≡ true
  pub none_before : All (λ x. p x ≡ false) before

first-IsFirst :
    {A : Type 0} (p : A → Bool) (xs : List A) {a : A} → first p xs ≡ some a → IsFirst p xs a
first-IsFirst p [] h = cc
first-IsFirst p (x ∷ xs) h = elim (Bool-cases (p x)) [
  | inl yes' ↦ record {
    before = [];
    after = xs;
    splits = ground arith;
    passes = ground arith;
    none_before = tt;
  }
  | inr no' ↦
      let f = first-IsFirst p xs (ground arith) in
      record {
        before = x ∷ f.before;
        after = f.after;
        splits = ap (◌∷◌ x) f.splits;
        passes = f.passes;
        none_before = (no', f.none_before);
      }
]

-- The lookup that is judged is the first failed one in the order A, AAAA, MX, TXT, NS, DS, DNSKEY.
pub first_failed-IsFirst :
    (ds dnskey : Lookup) (apex : LookupMap) (failed : Lookup)
    → first_failed ds dnskey apex ≡ some failed
    → IsFirst (λ l. is_failure l.status) (lookups_read ds dnskey apex) failed
unfolding first_failed
first_failed-IsFirst ds dnskey apex failed h =
    first-IsFirst (λ l. is_failure l.status) (lookups_read ds dnskey apex) h

-- The records of a zone that has them all and whose keys validated.
pub record IsValidated (ds dnskey : Lookup) (apex : LookupMap) : Type 0 where
  pub none_failed : NoneFailed ds dnskey apex
  pub exists : name_does_not_exist apex ≡ false
  pub has_ds : has_records ds ≡ true
  pub has_dnskey : has_records dnskey ≡ true
  pub keys_secure : dnskey.trust ≡ Trust.secure

classify_failed-ne-secure :
    (rep : DnssecReport) (failed : Lookup) (probe : BogusProbe) (unsigned : Bool)
    → (classify_failed rep failed probe unsigned).state ≢ DnssecState.secure
unfolding classify_failed
classify_failed-ne-secure rep failed none unsigned = ground arith
classify_failed-ne-secure rep failed (some probe) unsigned = ground arith

classify_answers-secure_iff :
    (ds dnskey : Lookup) (apex : LookupMap)
    → ((classify_answers ds dnskey apex).state ≡ DnssecState.secure) ↔ (
        (name_does_not_exist apex ≡ false)
        × (has_records ds ≡ true)
        × (has_records dnskey ≡ true)
        × (dnskey.trust ≡ Trust.secure))
unfolding classify_answers answered has_records
classify_answers-secure_iff ds dnskey apex = ground arith

-- When no lookup failed, the zone is bogus exactly when the parent publishes a DS and the zone,
-- which exists, answered that it has no DNSSEC key.
classify_answers-bogus_iff :
    (ds dnskey : Lookup) (apex : LookupMap)
    → ((classify_answers ds dnskey apex).state ≡ DnssecState.bogus) ↔ (
        (name_does_not_exist apex ≡ false)
        × (has_records ds ≡ true)
        × (answered dnskey ≡ true)
        × (has_records dnskey ≡ false))
unfolding classify_answers answered has_records
classify_answers-bogus_iff ds dnskey apex = ground arith

-- The probe found the data of the failed lookup with checking disabled.
abbrev pub Finds : BogusProbe → Lookup → Type 0
Finds none failed = ⊥
Finds (some probe) failed = (probe failed.name failed.qtype).0 ≡ true

classify_failed-bogus_iff :
    (rep : DnssecReport) (failed : Lookup) (probe : BogusProbe) (unsigned : Bool)
    → ((classify_failed rep failed probe unsigned).state ≡ DnssecState.bogus)
      ↔ ((failed.unqueryable ≡ false) × Finds probe failed × (unsigned ≡ false))
unfolding classify_failed
classify_failed-bogus_iff rep failed none unsigned = ground arith
classify_failed-bogus_iff rep failed (some probe) unsigned = ground arith

-- The two branches of the classification.
module _ (ds dnskey : Lookup) (apex : LookupMap) (probe : BogusProbe) where
  classify_dnssec_answers :
      first_failed ds dnskey apex ≡ none
      → classify_dnssec ds dnskey apex probe ≡ classify_answers ds dnskey apex
  unfolding classify_dnssec
  classify_dnssec_answers e = rw (e, classify_dnssec)

  classify_dnssec_failed :
      (failed : Lookup)
      → first_failed ds dnskey apex ≡ some failed
      → classify_dnssec ds dnskey apex probe
        ≡ classify_failed (published ds dnskey) failed probe (unsigned_delegation ds)
  unfolding classify_dnssec
  classify_dnssec_failed failed e = rw (e, classify_dnssec)

-- A zone is reported secure exactly when no lookup failed, the name exists, DS and DNSSEC key
-- records came back, and the resolver validated the keys.
pub classify_dnssec-secure_iff :
    (ds dnskey : Lookup) (apex : LookupMap) (probe : BogusProbe)
    → ((classify_dnssec ds dnskey apex probe).state ≡ DnssecState.secure)
      ↔ IsValidated ds dnskey apex
classify_dnssec-secure_iff ds dnskey apex probe =
    elim (Option-cases (first_failed ds dnskey apex)) [
      | inl fine ↦
          let (to, from) = classify_answers-secure_iff ds dnskey apex in
          rw (classify_dnssec_answers ds dnskey apex probe fine) (
            (λ h. record {
              none_failed = (first_failed-eq-none_iff ds dnskey apex).0 fine;
              exists = (to h).0;
              has_ds = (to h).1;
              has_dnskey = (to h).2;
              keys_secure = (to h).3;
            }),
            λ v. from (v.exists, v.has_ds, v.has_dnskey, v.keys_secure),
          )
      | inr (failed, e) ↦ rw (classify_dnssec_failed ds dnskey apex probe failed e) (
        (λ h. absurd (classify_failed-ne-secure _ failed probe _ h)),
        λ v. absurd (cc (e, (first_failed-eq-none_iff ds dnskey apex).1 v.none_failed)),
      )
    ]

-- Why a zone is reported bogus: a lookup that could be queried failed, checking disabled finds
-- its data, and the parent did not answer that there is no DS; or nothing failed and an existing
-- zone with a DS answered that it has no DNSSEC key.
abbrev pub BogusCause : Lookup → Lookup → LookupMap → BogusProbe → Type 0
BogusCause ds dnskey apex probe =
    ((failed : Lookup) × (first_failed ds dnskey apex ≡ some failed)
      × (failed.unqueryable ≡ false)
      × Finds probe failed
      × (is_nxrrset ds.status ≡ false))
    ⊎ ((first_failed ds dnskey apex ≡ none)
        × (name_does_not_exist apex ≡ false)
        × (has_records ds ≡ true)
        × (answered dnskey ≡ true)
        × (has_records dnskey ≡ false))

-- A zone is reported bogus exactly for one of the causes of `BogusCause`.
pub classify_dnssec-bogus_iff :
    (ds dnskey : Lookup) (apex : LookupMap) (probe : BogusProbe)
    → ((classify_dnssec ds dnskey apex probe).state ≡ DnssecState.bogus)
      ↔ BogusCause ds dnskey apex probe
unfolding unsigned_delegation
classify_dnssec-bogus_iff ds dnskey apex probe = elim (Option-cases (first_failed ds dnskey apex)) [
  | inl fine ↦
      let (to, from) = classify_answers-bogus_iff ds dnskey apex in
      rw (classify_dnssec_answers ds dnskey apex probe fine) (
        (λ h. inr (fine, (to h).0, (to h).1, (to h).2, (to h).3)),
        λ c. elim c [
          | inl (failed, e, _, _, _) ↦ absurd (cc (e, fine))
          | inr (_, n, d, a, k) ↦ from (n, d, a, k)
        ],
      )
  | inr (failed, e) ↦
      let (to, from) =
        classify_failed-bogus_iff (published ds dnskey) failed probe (is_nxrrset ds.status) in
      rw (classify_dnssec_failed ds dnskey apex probe failed e) (
        (λ h. inl (failed, e, (to h).0, (to h).1, (to h).2)),
        λ c. elim c [
          | inl (failed', e', q, f, u) ↦
              let same : failed' ≡ failed = cc (e, e') in
              from (
                subst
                  (λ l. (l.unqueryable ≡ false) × Finds probe l × (is_nxrrset ds.status ≡ false))
                  same (q, f, u))
          | inr (none', _, _, _, _) ↦ absurd (cc (e, none'))
        ],
      )
]
