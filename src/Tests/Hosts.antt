-- ===== src/Tests/Hosts.antt =====
-- Names that are reserved, hosts and zones.
use domaintest.Prelude.{◌≡◌, refl, true, false, none, some, [], ◌∷◌}
use domaintest.Names.{bare_name}
use domaintest.Zone.Verdict.{classify_zone-bogus, detect_not_a_zone_iff, IsHostVerdict}
use domaintest.Dnssec.Verdict.{BogusCause}
use domaintest.Text.{lit}
use domaintest.Zone.{
  classify_zone, SuffixList, detect_not_a_zone, reserved_name, registrable_domain, is_public_suffix,
  enclosing_zone, any_positive,
}
use domaintest.Tests.Data.{plain, found, texts, rr_of}
use domaintest.Records.{
  Lookup, LookupMap, LookupStatus, Trust, get, soa_owner_of, answered, has_records,
}
use domaintest.Dnssec.{DnssecState, BogusProbe, classify_by_trust, classify_dnssec, first_failed}
use domaintest.Trace.{DelegationStatus, no_delegation}

zones : Unit {0}
unfolding classify_zone reserved_name detect_not_a_zone registrable_domain is_public_suffix
    bare_name get soa_owner_of classify_by_trust classify_dnssec enclosing_zone any_positive
    answered has_records first_failed
zones = tt

abbrev org_suffix : SuffixList
org_suffix s = record { registrable = lit "x.org"; suffix = lit "org"; icann = true }

abbrev soa_of_parent : Lookup
soa_of_parent = record (found LookupStatus.nxrrset Trust.unset []) {
  rrs = rr_of (lit "x.org.") (lit "SOA") (lit "a. b.") ∷ [];
}

abbrev host_answers : LookupMap
host_answers =
    (lit "A", found LookupStatus.ok Trust.secure (lit "70" ∷ [])) ∷ (lit "NS", soa_of_parent) ∷ []

abbrev ns_only : LookupMap
ns_only = (lit "NS", soa_of_parent) ∷ []

abbrev broken_answers : LookupMap
broken_answers = (lit "A", found LookupStatus.failure Trust.unset []) ∷ []

abbrev none_found : Lookup
none_found = found LookupStatus.failure Trust.unset []

abbrev with_data : BogusProbe
with_data = some (λ name qtype. (true, []))

zone_tests :
    (detect_not_a_zone plain (lit "h.x.org") host_answers no_delegation ≡ (true, lit "x.org"))
    × (detect_not_a_zone plain (lit "h.x.org") ns_only no_delegation ≡ (true, lit "x.org"))
    × (detect_not_a_zone plain (lit "x.org") ns_only no_delegation ≡ (false, []))
    × (reserved_name plain (lit "a.Test.") ≡ lit "RFC 6761")
    × (reserved_name plain (lit "test.org") ≡ [])
    × ((classify_zone plain org_suffix
          (lit "h.x.org")
          none_found
          none_found
          host_answers
          none
          no_delegation).dnssec.state
        ≡ DnssecState.secure)
    × ((classify_zone plain org_suffix
          (lit "a.test")
          none_found
          none_found
          broken_answers
          with_data
          no_delegation).delegation.status
        ≡ DelegationStatus.reserved_name)
unfolding texts zones
zone_tests = (refl, refl, refl, refl, refl, refl, refl)

detect_not_a_zone_iff_example :
    IsHostVerdict plain
      (lit "h.x.org")
      host_answers
      no_delegation
      (detect_not_a_zone plain (lit "h.x.org") host_answers no_delegation)
detect_not_a_zone_iff_example =
    detect_not_a_zone_iff plain (lit "h.x.org") host_answers no_delegation

classify_zone-bogus_example :
    (reserved_name plain (lit "x.org") ≡ [])
    × ((detect_not_a_zone plain (lit "x.org") broken_answers no_delegation).0 ≡ false)
    × ((classify_zone plain org_suffix
          (lit "x.org")
          none_found
          none_found
          broken_answers
          with_data
          no_delegation).delegation
        ≡ no_delegation)
    × BogusCause none_found none_found broken_answers with_data
classify_zone-bogus_example =
    classify_zone-bogus plain org_suffix (lit "x.org") none_found none_found broken_answers
      with_data no_delegation (unfold texts zones in refl)
