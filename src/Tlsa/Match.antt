-- ===== src/Tlsa/Match.antt =====
-- What a parsed TLSA record satisfies, and when the records match.
use domaintest.Prelude.{
  Bool-cases, is_nil, take, any, Any, Any-of-any, any-of-Any, ℤ, gtb, any-perm, is_nil-perm, ℕ, ◌≡◌,
  refl, ◌≢◌, ◌↔◌, inl, inr, Bool, true, false, not, ◌&&◌, ◌||◌, Option, some, List, [], ◌∷◌, ◌++◌,
  arith,
}
use mathlib.Core.List.{Perm}
use domaintest.Text.Laws.{=?_iff}
use domaintest.Text.{Bytes, fields, join}
use domaintest.Tlsa.{
  TlsaRecord, Certificate, Hashes, parse_tlsa, parse_tlsa_fields, finish_tlsa, small_number,
  decode_hex, tlsa_digest, candidates, fits, is_number, tlsa_matches, match_tlsa, TlsaResult,
}

small_number-le : (s : Bytes) (hi : ℕ) {n : ℤ} → small_number s hi ≡ some n → gtb n hi ≡ false
unfolding small_number
small_number-le s hi h = ground arith

finish_tlsa-fields :
    (u s m : Option ℤ) (d : Option Bytes) (rec : TlsaRecord)
    → finish_tlsa u s m d ≡ some rec
    → (u ≡ some rec.usage)
      × (s ≡ some rec.selector)
      × (m ≡ some rec.matching)
      × (d ≡ some rec.digest)
      × (rec.digest ≢ [])
unfolding finish_tlsa
finish_tlsa-fields (some u) (some s) (some m) (some (b ∷ bs)) rec h = ground arith
finish_tlsa-fields _ _ _ _ rec h = cc

parse_tlsa_fields-bounds :
    (f : List Bytes) (rec : TlsaRecord)
    → parse_tlsa_fields f ≡ some rec
    → (gtb rec.usage 3 ≡ false)
      × (gtb rec.selector 1 ≡ false)
      × (gtb rec.matching 2 ≡ false)
      × (rec.digest ≢ [])
unfolding parse_tlsa_fields
parse_tlsa_fields-bounds (u ∷ s ∷ m ∷ hex ∷ more) rec h =
    let (pu, ps, pm, pd, ne) =
      finish_tlsa-fields (small_number u 3) (small_number s 1) (small_number m 2)
        (decode_hex (join (hex ∷ more) [])) rec h in
    (small_number-le u 3 pu, small_number-le s 1 ps, small_number-le m 2 pm, ne)
parse_tlsa_fields-bounds _ rec h = cc

-- A record that is accepted has its three numbers within the bounds of RFC 6698 from above, and
-- data.
pub parse_tlsa-bounds :
    (rdata : Bytes) (rec : TlsaRecord)
    → parse_tlsa rdata ≡ some rec
    → (gtb rec.usage 3 ≡ false)
      × (gtb rec.selector 1 ≡ false)
      × (gtb rec.matching 2 ≡ false)
      × (rec.digest ≢ [])
unfolding parse_tlsa
parse_tlsa-bounds rdata rec h = parse_tlsa_fields-bounds (fields rdata) rec h

module _ (hash : Hashes) where
  -- A record is satisfied by a chain: a trust-anchor record by any certificate of it, another
  -- by the first; the usages 0 and 1 ask for a chain that validated besides.
  abbrev pub is_anchor : TlsaRecord → Bool
  is_anchor rec = is_number rec.usage 0 || is_number rec.usage 2

  abbrev pub needs_pkix : TlsaRecord → Bool
  needs_pkix rec = is_number rec.usage 0 || is_number rec.usage 1

  pub data Satisfies (chain : List Certificate) (rec : TlsaRecord) : Type 0 where
    anchor :
        (pre : List Certificate) (c : Certificate) (post : List Certificate)
        → is_anchor rec ≡ true
        → chain ≡ pre ++ (c ∷ post)
        → tlsa_digest hash c rec.selector rec.matching ≡ rec.digest
        → Satisfies chain rec
    leaf :
        (c : Certificate) (rest : List Certificate)
        → is_anchor rec ≡ false
        → chain ≡ c ∷ rest
        → tlsa_digest hash c rec.selector rec.matching ≡ rec.digest
        → Satisfies chain rec

  fits-eq :
      (rec : TlsaRecord) (c : Certificate)
      → (fits hash rec c ≡ true) ↔ (tlsa_digest hash c rec.selector rec.matching ≡ rec.digest)
  fits-eq rec c = =?_iff (tlsa_digest hash c rec.selector rec.matching) rec.digest

  anchor-fits :
      (chain : List Certificate) (rec : TlsaRecord)
      → any (fits hash rec) chain ≡ true
      → is_anchor rec ≡ true
      → Satisfies chain rec
  anchor-fits chain rec h a =
      let (c, pre, post, q, f) = Any-of-any (fits hash rec) chain h in
      Satisfies.anchor pre c post a q ((fits-eq rec c).0 f)

  leaf-fits :
      (chain : List Certificate) (rec : TlsaRecord)
      → any (fits hash rec) (take 1 chain) ≡ true
      → is_anchor rec ≡ false
      → Satisfies chain rec
  leaf-fits [] rec h a = absurd (ground arith)
  leaf-fits (c ∷ rest) rec h a = Satisfies.leaf c rest a refl ((fits-eq rec c).0 (ground arith))

  fits-of-Satisfies :
      (chain : List Certificate) (rec : TlsaRecord)
      → Satisfies chain rec
      → any (fits hash rec) (candidates hash rec chain) ≡ true
  unfolding candidates
  fits-of-Satisfies chain rec (Satisfies.anchor pre c post a q e) =
      rw a (any-of-Any (fits hash rec) chain (c, pre, post, q, (fits-eq rec c).1 e))
  fits-of-Satisfies chain rec (Satisfies.leaf c rest a q e) = rw (a, q) (rw ((fits-eq rec c).1 e))

  candidates-fit :
      (chain : List Certificate) (rec : TlsaRecord)
      → (any (fits hash rec) (candidates hash rec chain) ≡ true) ↔ Satisfies chain rec
  candidates-fit chain rec = elim (Bool-cases (is_anchor rec)) [
    | inl a ↦ (
      (λ h. anchor-fits chain rec (unfold candidates in (rw a at h)) a),
      fits-of-Satisfies chain rec,
    )
    | inr a ↦ (
      (λ h. leaf-fits chain rec (unfold candidates in (rw a at h)) a),
      fits-of-Satisfies chain rec,
    )
  ]

  Satisfies-ne-nil :
      {chain : List Certificate} {rec : TlsaRecord} → Satisfies chain rec → is_nil chain ≡ false
  Satisfies-ne-nil (Satisfies.anchor [] c post a q e) = rw q
  Satisfies-ne-nil (Satisfies.anchor (x ∷ pre) c post a q e) = rw q
  Satisfies-ne-nil (Satisfies.leaf c rest a q e) = rw q

  -- A record matches exactly when the chain satisfies it and, for the usages that demand PKIX
  -- validation, the chain validated.
  pub tlsa_matches_iff :
      (rec : TlsaRecord) (chain : List Certificate) (pkix_valid : Bool)
      → (tlsa_matches hash rec chain pkix_valid ≡ true)
        ↔ (Satisfies chain rec × ((needs_pkix rec && not pkix_valid) ≡ false))
  tlsa_matches_iff rec chain pkix_valid =
      unfold tlsa_matches in
      let (to, from) = candidates-fit chain rec in
      (
        (λ h. (to (ground arith), ground arith)),
        λ s. ground (arith, from s.0, Satisfies-ne-nil s.0),
      )

  one_matches : List Certificate → Bool → List TlsaRecord → Bool
  one_matches chain pkix_valid records = any (λ rec. tlsa_matches hash rec chain pkix_valid) records

  match_tlsa-one_matches :
      (records : List TlsaRecord) (chain : List Certificate) (pkix_valid : Bool)
      → (match_tlsa hash records chain pkix_valid ≡ TlsaResult.match)
        ↔ (one_matches chain pkix_valid records ≡ true)
  unfolding match_tlsa one_matches
  match_tlsa-one_matches [] chain pkix_valid = (λ h. ground arith, λ h. ground arith)
  match_tlsa-one_matches (r ∷ rs) chain pkix_valid = (λ h. ground arith, λ h. ground arith)

  -- The records match the chain exactly when the chain satisfies one of them and validated where
  -- that one demands it, and the order of the records does not matter.
  pub match_tlsa_iff :
      {records records' : List TlsaRecord} (chain : List Certificate) (pkix_valid : Bool)
      → Perm records records'
      → ((match_tlsa hash records chain pkix_valid ≡ TlsaResult.match)
          ↔ Any (λ rec. Satisfies chain rec × ((needs_pkix rec && not pkix_valid) ≡ false)) records)
        × (match_tlsa hash records chain pkix_valid ≡ match_tlsa hash records' chain pkix_valid)
  unfolding one_matches
  match_tlsa_iff {records} {records'} chain pkix_valid p =
      let (to, from) = match_tlsa-one_matches records chain pkix_valid in
      let test : TlsaRecord → Bool = λ rec. tlsa_matches hash rec chain pkix_valid in
      (
        (
          λ h.
              let (r, pre, post, q, m) = Any-of-any test records (to h) in
              (r, pre, post, q, (tlsa_matches_iff r chain pkix_valid).0 m),
          λ s.
              let (r, pre, post, q, m) = s in
              from (
                any-of-Any test records
                  (r, pre, post, q, (tlsa_matches_iff r chain pkix_valid).1 m)),
        ),
        unfold match_tlsa in rw (any-perm test p, is_nil-perm p) refl,
      )
