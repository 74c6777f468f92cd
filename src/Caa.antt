-- ===== src/Caa.antt =====
-- caa.go: may the authority that issued the certificate served at a name issue for it.
pub mod Issuers
pub mod Permits
pub mod Climb
use domaintest.Prelude.{
  ◌==◌, if◌then◌else◌, is_nil, any, ℤ, bit_seven, Bool, true, false, not, ◌&&◌, ◌||◌, Option, none,
  some, List, [], ◌∷◌, ◌++◌,
}
use domaintest.Records.{Lookup, answered, has_records}
use domaintest.Text.Numbers.{atoi}
use domaintest.Text.{
  Bytes, lit, ◌=?◌, contains, fields, join, to_lower, trim_space, cut, equal_fold,
}
use domaintest.Caa.Issuers.{caa_ids_for}

-- `caaRecord`
pub record CaaRecord : Type 0 where
  pub flags : ℤ
  pub tag : Bytes
  pub value : Bytes

-- `strings.Trim(s, "\"")`
skip_quotes : Bytes → Bytes
skip_quotes [] = []
skip_quotes (c ∷ s) = let rest = skip_quotes s in if c == b'"' then rest else c ∷ s

end_quotes : Bytes → Bytes
end_quotes [] = []
end_quotes (c ∷ s) = let rest = end_quotes s in if c == b'"' && is_nil rest then [] else c ∷ rest

parse_fields : List Bytes → List CaaRecord
parse_fields (flags ∷ tag ∷ value ∷ more) =
    record {
      flags = (atoi flags).0;
      tag = to_lower tag;
      value = end_quotes (skip_quotes (join (value ∷ more) (lit " ")));
    }
    ∷ []
parse_fields _ = []

-- `parseCAA`
unfoldable pub parse_caa : List Bytes → List CaaRecord
unfolding parse_fields skip_quotes end_quotes
parse_caa [] = []
parse_caa (r ∷ rest) = parse_fields (fields r) ++ parse_caa rest

-- `hasTag`
unfoldable pub has_tag : List CaaRecord → Bytes → Bool
has_tag records tag = any (λ r. r.tag =? tag) records

-- The property in force: `issuewild` for a wildcard leaf where such a record exists.
unfoldable pub tag_in_force : List CaaRecord → Bool → Bytes
tag_in_force records wildcard =
    if wildcard && has_tag records (lit "issuewild") then lit "issuewild" else lit "issue"

-- The authority a record names, "" for none.
unfoldable pub issuer_domain : CaaRecord → Bytes
issuer_domain r = trim_space (cut r.value b';').0

unfoldable pub names_one_of : List Bytes → Bytes → Bool
names_one_of ids domain = any (λ id. equal_fold domain id) ids

-- The loop of `caaPermits`: `allowed` and `seenTag`.
permits_loop : Bytes → List Bytes → List CaaRecord → Bool → Bool → Bool × Bool
permits_loop tag ids [] allowed seen = (allowed, seen)
permits_loop tag ids (r ∷ rest) allowed seen =
    let domain = issuer_domain r in
    let skipped = permits_loop tag ids rest allowed seen in
    let forbidden = permits_loop tag ids rest allowed true in
    let judged = permits_loop tag ids rest (allowed || names_one_of ids domain) true in
    if not (r.tag =? tag) then skipped else if is_nil domain then forbidden else judged

-- `caaPermits`
unfoldable pub caa_permits : List CaaRecord → List Bytes → Bool → Bool
unfolding permits_loop tag_in_force names_one_of
caa_permits records ids wildcard =
    let (allowed, seen) = permits_loop (tag_in_force records wildcard) ids records false false in
    if not seen then true else allowed

-- `knownCAATags`
unfoldable pub known_caa_tags : List Bytes
known_caa_tags =
    lit "issue"
    ∷ lit "issuewild"
    ∷ lit "iodef"
    ∷ lit "contactemail"
    ∷ lit "contactphone"
    ∷ lit "issuemail"
    ∷ lit "issuevmc"
    ∷ []

abbrev pub is_critical_unknown : CaaRecord → Bool
is_critical_unknown r = bit_seven r.flags && not (contains r.tag known_caa_tags)

-- `criticalUnknownTag`
unfoldable pub critical_unknown_tag : List CaaRecord → Bytes
critical_unknown_tag [] = []
critical_unknown_tag (r ∷ rest) =
    let later = critical_unknown_tag rest in if is_critical_unknown r then r.tag else later

-- `servedCert`
pub record ServedCert : Type 0 where
  pub issuer : Bytes
  pub wildcard : Bool

-- `CAAVerdict`; `permitted` is null when nothing could be judged.
pub record CaaVerdict : Type 0 where
  pub published : List Bytes
  pub effective : List Bytes
  pub issuer : Bytes
  pub permitted : Option Bool
  pub note : Bytes

-- `unknownCAANote`
unfoldable pub unknown_caa_note : Lookup → Bytes
unknown_caa_note rec =
    if answered rec
    then lit
        "no CAA records here, and the apex CAA lookup did not complete, so no restriction can be ruled out"
    else lit "the CAA lookup did not complete, so no restriction can be ruled out"

-- The judgement of `caaVerdict` on an issuer that is known, or not, to the table.
unfoldable pub judge_issuer :
    List CaaRecord → ServedCert → Option (List Bytes) → Option Bool × Bytes
judge_issuer parsed cert none = (none, lit "issuer not in the CAA mapping table")
judge_issuer parsed cert (some ids) = (some (caa_permits parsed ids cert.wildcard), [])

-- The switch of `caaVerdict`: `Permitted` and `Note`.
unfoldable pub judge : Lookup → List CaaRecord → Bool → ServedCert → Option Bool × Bytes
unfolding judge_issuer
judge rec parsed known cert =
    if not known
    then (none, unknown_caa_note rec)
    else if is_nil cert.issuer
    then (none, lit "no certificate observed")
    else if is_nil parsed
    then (some true, lit "no CAA records; any CA may issue")
    else if not (is_nil (critical_unknown_tag parsed))
    then (
      some false,
      lit "critical CAA property "
          ++ (critical_unknown_tag parsed
              ++ lit " is not one any CA understands, so none may issue"),
    )
    else judge_issuer parsed cert (caa_ids_for cert.issuer)

-- `caaVerdict`
unfoldable pub caa_verdict : Lookup → List Bytes → Bool → ServedCert → CaaVerdict
unfolding judge
caa_verdict rec effective known cert =
    let (permitted, note) = judge rec (parse_caa effective) known cert in
    record {
      published = rec.records;
      effective = effective;
      issuer = cert.issuer;
      permitted = permitted;
      note = note;
    }

-- `wwwVerdict`: the records that govern www, and whether they are known.
unfoldable pub www_effective : Lookup → Lookup → List Bytes × Bool
www_effective apex_rec www_rec =
    if is_nil www_rec.records && answered www_rec
    then (apex_rec.records, answered apex_rec)
    else (www_rec.records, has_records www_rec)

unfoldable pub www_verdict : Lookup → Lookup → ServedCert → CaaVerdict
unfolding caa_verdict
www_verdict apex_rec www_rec cert =
    let (effective, known) = www_effective apex_rec www_rec in
    caa_verdict www_rec effective known cert

-- `CAAReport`; `www` is the entry of the map, there when www was looked up.
pub record CaaReport : Type 0 where
  pub apex : CaaVerdict
  pub www : Option CaaVerdict
  pub absent : Bool

-- `assessCAA`
unfoldable pub assess_caa : Lookup → Lookup → ServedCert → ServedCert → Bool → CaaReport
unfolding www_verdict caa_verdict
assess_caa apex_rec www_rec apex_cert www_cert www_probed = record {
  apex = caa_verdict apex_rec apex_rec.records (answered apex_rec) apex_cert;
  www = if www_probed then some (www_verdict apex_rec www_rec www_cert) else none;
  absent = answered apex_rec && not (has_records apex_rec);
}
