-- ===== src/Tests/Zone.antt =====
-- DNSSEC, wildcards, the delegation and the audit of the nameservers.
use domaintest.Prelude.{
  if◌then◌else◌, All, ◌≡◌, refl, ◌≢◌, ◌↔◌, ◌⊎◌, true, false, none, some, [], ◌∷◌, arith,
}
use mathlib.Core.List.Perm
use domaintest.Wildcard.Verdict.{
  assess_wildcard-perm, assess_wildcard-present_iff, some_denied, assess_wildcard-absent_iff,
}
use domaintest.Wildcard.Addresses.{same_address_set_repeated}
use domaintest.Addr.{Addr, unmap}
use domaintest.Wildcard.{
  assess_wildcard, WildProbe, classify_probe, same_address_set, www_is_wildcard, Outcome,
  WildcardStatus,
}
use domaintest.Dnssec.ByTrust.{has_insecure, has_secure, classify_by_trust-perm}
use domaintest.Dnssec.Verdict.{
  IsValidated, BogusCause, classify_dnssec-secure_iff, classify_dnssec-bogus_iff,
}
use domaintest.Dnssec.{
  classify_dnssec, BogusProbe, classify_by_trust, DnssecState, first_failed, name_does_not_exist,
}
use domaintest.Text.{lit, Bytes}
use domaintest.Tests.Data.{texts, found, numbers, plain}
use domaintest.Records.{
  Lookup, LookupMap, LookupStatus, Trust, get, addrs_of, answered, has_records,
}

dnssec : Unit {0}
unfolding classify_dnssec get classify_by_trust first_failed answered has_records
    name_does_not_exist
dnssec = tt

abbrev signed_ds : Lookup
signed_ds = found LookupStatus.ok Trust.secure (lit "1 8 2 AB" ∷ [])

abbrev keys : Lookup
keys = found LookupStatus.ok Trust.secure (lit "257 3 8 K" ∷ [])

abbrev failed_a : Lookup
failed_a = record (found LookupStatus.failure Trust.unset []) {
  name = lit "x.org";
  qtype = lit "A";
}

abbrev apex_up : LookupMap
apex_up = (lit "A", found LookupStatus.ok Trust.secure (lit "70" ∷ [])) ∷ []

abbrev apex_failed : LookupMap
apex_failed = (lit "A", failed_a) ∷ []

abbrev has_data : BogusProbe
has_data = some (λ name qtype. (true, lit "9"))

dnssec_tests :
    ((classify_dnssec signed_ds keys apex_up none).state ≡ DnssecState.secure)
    × ((classify_dnssec signed_ds keys apex_failed has_data).state ≡ DnssecState.bogus)
    × ((classify_dnssec (found LookupStatus.nxrrset Trust.unset []) keys apex_failed has_data).state
        ≡ DnssecState.servfail)
    × ((classify_dnssec signed_ds keys apex_failed none).state ≡ DnssecState.servfail)
unfolding texts dnssec
dnssec_tests = (refl, refl, refl, refl)

classify_dnssec-secure_iff_example :
    ((classify_dnssec signed_ds keys apex_up none).state ≡ DnssecState.secure)
    ↔ IsValidated signed_ds keys apex_up
classify_dnssec-secure_iff_example = classify_dnssec-secure_iff signed_ds keys apex_up none

classify_dnssec-bogus_iff_example :
    ((classify_dnssec signed_ds keys apex_failed has_data).state ≡ DnssecState.bogus)
    ↔ BogusCause signed_ds keys apex_failed has_data
classify_dnssec-bogus_iff_example = classify_dnssec-bogus_iff signed_ds keys apex_failed has_data

abbrev insecure_mx : Bytes × Lookup
insecure_mx = (lit "MX", found LookupStatus.ok Trust.insecure (lit "5 m" ∷ []))

abbrev secure_a : Bytes × Lookup
secure_a = (lit "A", found LookupStatus.ok Trust.secure (lit "70" ∷ []))

classify_by_trust-perm_example :
    (classify_by_trust (insecure_mx ∷ secure_a ∷ [])
      ≡ classify_by_trust (secure_a ∷ insecure_mx ∷ []))
    × ((classify_by_trust (insecure_mx ∷ secure_a ∷ [])).state ≡ (
        if has_insecure (insecure_mx ∷ secure_a ∷ [])
        then DnssecState.insecure
        else if has_secure (insecure_mx ∷ secure_a ∷ [])
        then DnssecState.secure
        else DnssecState.unknown))
classify_by_trust-perm_example = classify_by_trust-perm (Perm.swap secure_a insecure_mx [])

wildcards : Unit {0}
unfolding assess_wildcard classify_probe addrs_of www_is_wildcard
wildcards = tt

abbrev no_skip : Bytes
no_skip = []

abbrev absent : Lookup
absent = found LookupStatus.nxdomain Trust.unset []

abbrev empty : Lookup
empty = found LookupStatus.nxrrset Trust.unset []

abbrev answering : WildProbe
answering = record {
  label = lit "r1";
  a = found LookupStatus.ok Trust.unset (lit "70" ∷ []);
  aaaa = empty;
}

abbrev denying : WildProbe
denying = record { label = lit "r2"; a = absent; aaaa = absent }

abbrev www_seventy : Lookup
www_seventy = found LookupStatus.ok Trust.unset (lit "70" ∷ [])

wildcard_tests :
    ((assess_wildcard numbers plain (answering ∷ answering ∷ []) no_skip www_seventy empty).status
      ≡ WildcardStatus.present)
    × ((assess_wildcard numbers plain (answering ∷ denying ∷ []) no_skip www_seventy empty).status
        ≡ WildcardStatus.absent)
unfolding texts wildcards
wildcard_tests = (refl, refl)

assess_wildcard-present_iff_example :
    ((assess_wildcard numbers plain (answering ∷ []) no_skip www_seventy empty).status
      ≡ WildcardStatus.present)
    ↔ ((no_skip ≡ [])
        × ((answering ∷ []) ≢ [])
        × All (λ p. classify_probe numbers p ≡ Outcome.answered) (answering ∷ []))
assess_wildcard-present_iff_example =
    assess_wildcard-present_iff numbers plain (answering ∷ []) no_skip www_seventy empty

assess_wildcard-absent_iff_example :
    ((assess_wildcard numbers plain (answering ∷ denying ∷ []) no_skip empty empty).status
      ≡ WildcardStatus.absent)
    ↔ ((no_skip ≢ []) ⊎ ((no_skip ≡ []) × (some_denied numbers (answering ∷ denying ∷ []) ≡ true)))
assess_wildcard-absent_iff_example =
    assess_wildcard-absent_iff numbers plain (answering ∷ denying ∷ []) no_skip empty empty

assess_wildcard-perm_example :
    (assess_wildcard numbers plain (denying ∷ answering ∷ []) no_skip www_seventy empty).status
    ≡ (assess_wildcard numbers plain (answering ∷ denying ∷ []) no_skip www_seventy empty).status
assess_wildcard-perm_example =
    assess_wildcard-perm numbers plain no_skip www_seventy empty (Perm.swap answering denying [])

same_address_set_repeated_example :
    (same_address_set (Addr.v4 1 ∷ Addr.v4 2 ∷ []) (Addr.v4 1 ∷ Addr.v4 1 ∷ []) ≡ true)
    × (same_address_set (Addr.v4 1 ∷ Addr.v4 1 ∷ []) (Addr.v4 1 ∷ Addr.v4 2 ∷ []) ≡ false)
same_address_set_repeated_example =
    same_address_set_repeated (Addr.v4 1) (Addr.v4 2) (unfold unmap in refl) (unfold unmap in refl)
      (λ h. ground arith)
