-- ===== src/Zone/Verdict.antt =====
-- When a name is said to be a host, and what each kind of name is told.
use domaintest.Prelude.{
  Bool-cases, is_nil, any, keep, ◌≡◌, refl, sym, ap, ◌∙◌, ◌≢◌, ◌↔◌, ◌⊎◌, inl, inr, Bool, true,
  false, not, ◌&&◌, List, [], ◌∷◌, ◌++◌, map, arith,
}
use domaintest.Dnssec.ByTrust.{classify_by_trust-ne-bogus}
use domaintest.Text.{Bytes, lit, ◌=?◌, has_suffix}
use domaintest.Dnssec.{DnssecState, BogusProbe, classify_by_trust, classify_dnssec, apex_types}
use domaintest.Dnssec.Verdict.{BogusCause, classify_dnssec-bogus_iff}
use domaintest.Names.{Dpdomain, bare_name}
use domaintest.Records.{Lookup, LookupMap, get, is_nxrrset, soa_owner, has_records}
use domaintest.Trace.{Delegation}
use domaintest.Zone.{
  SuffixList, detect_not_a_zone, classify_zone, reserved_name, enclosing_zone, any_positive,
  enclosing_from,
}

module _ (dp : Dpdomain) where
  -- A SOA owner above the name, and the answers among those to the queries for the name.
  abbrev pub is_above : Bytes → Bytes → Bool
  is_above domain owner =
      not (is_nil owner)
      && (not (owner =? domain ++ lit ".") && has_suffix (lit "." ++ owner) (domain ++ lit "."))

  abbrev pub owners_above : Bytes → LookupMap → List Bytes
  owners_above domain apex = keep (is_above domain) (map (λ t. soa_owner (get apex t)) apex_types)

  abbrev pub first_bare : List Bytes → Bytes
  first_bare [] = []
  first_bare (owner ∷ rest) = bare_name dp owner

  enclosing_from_lem :
      (domain : Bytes) (apex : LookupMap) (types : List Bytes)
      → enclosing_from dp (domain ++ lit ".") apex types
        ≡ first_bare (keep (is_above domain) (map (λ t. soa_owner (get apex t)) types))
  unfolding enclosing_from
  enclosing_from_lem domain apex [] = refl
  enclosing_from_lem domain apex (t ∷ rest) = ground (arith, enclosing_from_lem domain apex rest)

  enclosing_zone_lem :
      (domain : Bytes) (apex : LookupMap)
      → enclosing_zone dp domain apex ≡ first_bare (owners_above domain apex)
  unfolding enclosing_zone
  enclosing_zone_lem domain apex = enclosing_from_lem domain apex apex_types

  -- The types, but for NS, whose query found records.
  abbrev pub types_found : LookupMap → List Bytes
  types_found apex =
      keep (λ t. has_records (get apex t)) (keep (λ t. not (t =? lit "NS")) apex_types)

  any-keep :
      (apex : LookupMap) (types : List Bytes)
      → any (λ t. not (t =? lit "NS") && has_records (get apex t)) types
        ≡ not
            (is_nil (keep (λ t. has_records (get apex t)) (keep (λ t. not (t =? lit "NS")) types)))
  any-keep apex [] = refl
  any-keep apex (t ∷ rest) = ground (arith, any-keep apex rest)

  any_positive_lem : (apex : LookupMap) → any_positive dp apex ≡ not (is_nil (types_found apex))
  unfolding any_positive
  any_positive_lem apex = any-keep apex apex_types

  -- What the answers say of the name: whether it is a host in another zone, and of which one.
  abbrev pub IsHostVerdict : Bytes → LookupMap → Delegation → Bool × Bytes → Type 0
  IsHostVerdict domain apex deleg verdict =
      ((verdict.0 ≡ true) ↔ (
        (deleg.parent_ns ≡ [])
        × (((get apex (lit "NS")).cname ≢ [])
            ⊎ ((is_nxrrset (get apex (lit "NS")).status ≡ true)
                × ((first_bare (owners_above domain apex) ≢ []) ⊎ (types_found apex ≢ []))))))
      × (((verdict.0 ≡ true) × (verdict.1 ≡ first_bare (owners_above domain apex)))
          ⊎ ((verdict.0 ≡ false) × (verdict.1 ≡ [])))

  -- A name is said to be a host exactly when the parent does not delegate it, and either its NS
  -- query followed an alias, or that query found the name without NS records and either a query of
  -- another type found records or an answer to any of the queries, the NS query's own included,
  -- carries a SOA record whose owner is above the name. With a host, and only then, a zone is
  -- reported: the first of these owners in the order of the record types, where there is one.
  pub detect_not_a_zone_iff :
      (domain : Bytes) (apex : LookupMap) (deleg : Delegation)
      → IsHostVerdict domain apex deleg (detect_not_a_zone dp domain apex deleg)
  unfolding detect_not_a_zone
  detect_not_a_zone_iff domain apex deleg =
      let zone = enclosing_zone_lem domain apex in
      let found = any_positive_lem apex in
      (
        (λ h. ground (arith, h, zone, found), λ h. ground (arith, h, zone, found)),
        ground (arith, zone),
      )

  module _ (psl : SuffixList) (domain : Bytes) (ds dnskey : Lookup) (apex : LookupMap)
      (probe : BogusProbe) (deleg : Delegation) where
    classify_zone-reserved :
        is_nil (reserved_name dp domain) ≡ false
        → (classify_zone dp psl domain ds dnskey apex probe deleg).dnssec.state
          ≡ DnssecState.unknown
    unfolding classify_zone
    classify_zone-reserved r = rw r refl

    classify_zone-host :
        is_nil (reserved_name dp domain) ≡ true
        → (detect_not_a_zone dp domain apex deleg).0 ≡ true
        → (classify_zone dp psl domain ds dnskey apex probe deleg).dnssec ≡ classify_by_trust apex
    unfolding classify_zone
    classify_zone-host r z = rw r (rw z refl)

    classify_zone-zone :
        is_nil (reserved_name dp domain) ≡ true
        → (detect_not_a_zone dp domain apex deleg).0 ≡ false
        → ((classify_zone dp psl domain ds dnskey apex probe deleg).dnssec
            ≡ classify_dnssec ds dnskey apex probe)
          × ((classify_zone dp psl domain ds dnskey apex probe deleg).delegation ≡ deleg)
    unfolding classify_zone
    classify_zone-zone r z = rw r (rw z (refl, refl))

  -- A name is said to have a broken trust chain only if it is not reserved, is no host in another
  -- zone, and one of the causes of `BogusCause` is there; the trace is kept as it was.
  pub classify_zone-bogus :
      (psl : SuffixList) (domain : Bytes) (ds dnskey : Lookup) (apex : LookupMap)
      (probe : BogusProbe) (deleg : Delegation)
      → (classify_zone dp psl domain ds dnskey apex probe deleg).dnssec.state ≡ DnssecState.bogus
      → (reserved_name dp domain ≡ [])
        × ((detect_not_a_zone dp domain apex deleg).0 ≡ false)
        × ((classify_zone dp psl domain ds dnskey apex probe deleg).delegation ≡ deleg)
        × BogusCause ds dnskey apex probe
  classify_zone-bogus psl domain ds dnskey apex probe deleg h =
      elim (Bool-cases (is_nil (reserved_name dp domain))) [
        | inr r ↦
            let q = classify_zone-reserved psl domain ds dnskey apex probe deleg r in
            absurd (ground (arith, h, q))
        | inl r ↦ elim (Bool-cases (detect_not_a_zone dp domain apex deleg).0) [
          | inl z ↦
              let q = classify_zone-host psl domain ds dnskey apex probe deleg r z in
              absurd (classify_by_trust-ne-bogus apex (sym (ap (λ d. d.state) q) ∙ h))
          | inr z ↦
              let (q, d) = classify_zone-zone psl domain ds dnskey apex probe deleg r z in
              (
                ground (arith, r),
                z,
                d,
                (classify_dnssec-bogus_iff ds dnskey apex probe).0 (sym (ap (λ x. x.state) q) ∙ h),
              )
        ]
      ]
