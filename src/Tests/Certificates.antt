-- ===== src/Tests/Certificates.antt =====
-- CAA and TLSA records against certificates.
use domaintest.Prelude.{
  is_nil, Any, gtb, ◌≡◌, refl, ◌≢◌, ◌↔◌, ◌⊎◌, true, false, not, ◌&&◌, none, some, List, [], ◌∷◌,
  pos, negsuc,
}
use domaintest.Caa.Climb.{www_verdict_sound, JudgedOn}
use domaintest.Caa.Issuers.{caa_ids_for, caa_issuers, normalize_org}
use domaintest.Tlsa.Match.{parse_tlsa-bounds, Satisfies, needs_pkix, match_tlsa_iff}
use domaintest.Text.{Bytes, lit, equal_fold, cut}
use domaintest.Caa.{
  caa_permits, ServedCert, CaaRecord, caa_verdict, www_verdict, parse_caa, issuer_domain,
  critical_unknown_tag, www_effective,
}
use mathlib.Core.List.Perm
use domaintest.Tests.Data.{marked, found, texts}
use domaintest.Records.{Lookup, LookupStatus, Trust, has_records, answered}
use domaintest.Tlsa.{
  TlsaResult, parse_tlsa, Certificate, TlsaRecord, tlsa_matches, match_tlsa, tlsa_digest,
  candidates, decode_hex, small_number,
}

caa : Unit {0}
unfolding caa_permits caa_verdict www_verdict parse_caa caa_ids_for answered has_records equal_fold
    cut issuer_domain critical_unknown_tag caa_issuers normalize_org www_effective
caa = tt

abbrev issue : Bytes → CaaRecord
issue value = record { flags = pos 0; tag = lit "issue"; value = value }

abbrev own : List Bytes
own = lit "letsencrypt.org" ∷ []

abbrev le_cert : ServedCert
le_cert = record { issuer = lit "Let's Encrypt"; wildcard = false }

abbrev restricted : Lookup
restricted = found LookupStatus.ok Trust.unset (lit "0 issue \"letsencrypt.org\"" ∷ [])

abbrev no_records : Lookup
no_records = found LookupStatus.nxrrset Trust.unset []

caa_tests :
    (caa_permits (issue (lit "LetsEncrypt.org; a=b") ∷ []) own false ≡ true)
    × (caa_permits (issue (lit ";") ∷ []) own false ≡ false)
    × ((caa_verdict restricted restricted.records true le_cert).permitted ≡ some true)
    × ((www_verdict restricted no_records le_cert).permitted ≡ some true)
unfolding texts caa
caa_tests = (refl, refl, refl, refl)

abbrev two_issuers : List CaaRecord
two_issuers = issue (lit "letsencrypt.org") ∷ issue (lit ";") ∷ []

www_verdict_sound_example :
    ((has_records no_records ≡ true) × JudgedOn restricted no_records le_cert no_records.records)
    ⊎ ((answered no_records ≡ true)
        × (is_nil no_records.records ≡ true)
        × (answered restricted ≡ true)
        × JudgedOn restricted no_records le_cert restricted.records)
www_verdict_sound_example =
    www_verdict_sound restricted no_records le_cert true (unfold texts caa in refl)

tlsa : Unit {0}
unfolding parse_tlsa match_tlsa tlsa_matches tlsa_digest candidates decode_hex small_number
tlsa = tt

abbrev cert : Certificate
cert = record { raw = 10 ∷ []; raw_public_key = 11 ∷ [] }

abbrev pinned : TlsaRecord
pinned = record { usage = pos 3; selector = pos 1; matching = pos 1; digest = 2 ∷ 11 ∷ [] }

abbrev other : TlsaRecord
other = record { usage = pos 2; selector = pos 0; matching = pos 0; digest = 7 ∷ [] }

tlsa_tests :
    (parse_tlsa (lit "3 1 1 02 0B") ≡ some pinned)
    × (parse_tlsa (lit "4 1 1 02") ≡ none)
    × (parse_tlsa (lit "-1 0 0 0B")
        ≡ some (record { usage = negsuc 0; selector = pos 0; matching = pos 0; digest = 11 ∷ [] }))
    × (match_tlsa marked (other ∷ pinned ∷ []) (cert ∷ []) false ≡ TlsaResult.match)
    × (match_tlsa marked (other ∷ []) (cert ∷ []) false ≡ TlsaResult.mismatch)
unfolding texts tlsa
tlsa_tests = (refl, refl, refl, refl, refl)

parse_tlsa-bounds_example :
    (gtb pinned.usage 3 ≡ false)
    × (gtb pinned.selector 1 ≡ false)
    × (gtb pinned.matching 2 ≡ false)
    × (pinned.digest ≢ [])
parse_tlsa-bounds_example = parse_tlsa-bounds (lit "3 1 1 02 0B") pinned (unfold texts tlsa in refl)

match_tlsa_iff_example :
    ((match_tlsa marked (other ∷ pinned ∷ []) (cert ∷ []) false ≡ TlsaResult.match)
      ↔ Any
          (λ rec. Satisfies marked (cert ∷ []) rec × ((needs_pkix marked rec && not false) ≡ false))
          (other ∷ pinned ∷ []))
    × (match_tlsa marked (other ∷ pinned ∷ []) (cert ∷ []) false
        ≡ match_tlsa marked (pinned ∷ other ∷ []) (cert ∷ []) false)
match_tlsa_iff_example = match_tlsa_iff marked (cert ∷ []) false (Perm.swap pinned other [])
