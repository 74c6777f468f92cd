-- ===== src/Report/Severities/ByReport.antt =====
-- The severities of the findings of a report.
use domaintest.Prelude.{
  if◌then◌else◌, Option-cases, ◌≡◌, refl, inl, inr, Bool, Option, some, List, [], arith,
}
use domaintest.Report.Severities.ByMail.{mail_findings-AreFiled, ns_findings-AreFiled}
use domaintest.Report.Mirror.{build_findings-mirrors}
use domaintest.Report.Severities.ByWeb.{
  tls_findings-AreFiled, web_findings-AreFiled, http_findings-AreFiled,
  consistency_findings-AreFiled,
}
use domaintest.Dnssec.{apex_types}
use domaintest.Text.{Bytes, lit}
use domaintest.Report.Build.{
  Outside, deep_findings, unreachable_findings, reserved_name_findings, all_findings, findings_of,
  build_findings,
}
use domaintest.Report.Policies.{
  reserved_findings, caa_findings, tlsa_findings, preload_findings, wildcard_findings,
  denied_issuer, by_result, preloaded_findings, www_wildcard, denied_www, unsigned_zone, by_preload,
  unmet_directive, header_findings,
}
use domaintest.Report.Presence.{
  lookup_findings, address_warnings, mail_presence, zone_kind_findings, apex_missing,
  presence_warnings, present_findings, dns_findings, nxdomain_code, or_present, no_address,
  www_types,
}
use domaintest.Report.Zone.{
  rdap_findings, deadline_findings, reachability_findings, dnssec_findings, delegation_findings,
  registered_statuses, state_findings, delegated_findings,
}
use domaintest.Report.Severities.{AreFiled, append-AreFiled, each-AreFiled, severity_of}
use domaintest.Findings.{Finding}
use domaintest.Report.{Report, RdapReport, Reach}
use domaintest.Zone.{SuffixList, registrable_domain}
use domaintest.Records.{Lookup, LookupMap, get}
use domaintest.Caa.{CaaReport}
use domaintest.Report.{TlsaReport}
use domaintest.Wildcard.{WildcardReport}

rdap_findings-AreFiled : (r : Option RdapReport) → AreFiled (rdap_findings r)
unfolding rdap_findings registered_statuses severity_of
rdap_findings-AreFiled r = ground arith

deadline_findings-AreFiled : (rep : Report) → AreFiled (deadline_findings rep)
unfolding deadline_findings severity_of
deadline_findings-AreFiled rep = ground arith

reachability_findings-AreFiled :
    (reach : List (Bytes × Reach)) → AreFiled (reachability_findings reach)
unfolding reachability_findings severity_of
reachability_findings-AreFiled reach = each-AreFiled _ (λ x. (refl, tt)) _

dnssec_findings-AreFiled : (rep : Report) → AreFiled (dnssec_findings rep)
unfolding dnssec_findings state_findings severity_of
dnssec_findings-AreFiled rep = ground arith

delegation_findings-AreFiled : (rep : Report) → AreFiled (delegation_findings rep)
unfolding delegation_findings delegated_findings severity_of
delegation_findings-AreFiled rep = ground arith

lookup_findings-AreFiled :
    (label qtype : Bytes) (l : Lookup) (folded : Bool)
    → AreFiled (lookup_findings label qtype l folded)
unfolding lookup_findings severity_of
lookup_findings-AreFiled label qtype l folded = ground arith

address_warnings-AreFiled :
    (label : Bytes) (a aaaa : Lookup) → AreFiled (address_warnings label a aaaa)
unfolding address_warnings nxdomain_code no_address severity_of
address_warnings-AreFiled label a aaaa = ground arith

mail_presence-AreFiled : (apex : LookupMap) → AreFiled (mail_presence apex)
unfolding mail_presence severity_of
mail_presence-AreFiled apex = ground arith

zone_kind_findings-AreFiled : (rep : Report) → AreFiled (zone_kind_findings rep)
unfolding zone_kind_findings severity_of
zone_kind_findings-AreFiled rep = ground arith

apex_missing-AreFiled :
    (rep : Report) (xs : List Finding) → apex_missing rep ≡ some xs → AreFiled xs
unfolding apex_missing severity_of
apex_missing-AreFiled rep xs h = ground arith

reserved_findings-AreFiled : (lines : List Bytes) → AreFiled (reserved_findings lines)
unfolding reserved_findings severity_of
reserved_findings-AreFiled lines = each-AreFiled _ (λ x. (refl, tt)) lines

caa_findings-AreFiled :
    (quoted : Bytes → Bytes) (c : Option CaaReport) → AreFiled (caa_findings quoted c)
unfolding caa_findings denied_issuer denied_www severity_of
caa_findings-AreFiled quoted c = ground arith

tlsa_findings-AreFiled : (t : Option TlsaReport) → AreFiled (tlsa_findings t)
unfolding tlsa_findings by_result unsigned_zone severity_of
tlsa_findings-AreFiled t = ground arith

preload_findings-AreFiled : (rep : Report) → AreFiled (preload_findings rep)
unfolding preload_findings preloaded_findings by_preload unmet_directive header_findings severity_of
preload_findings-AreFiled rep = ground arith

module _ (psl : SuffixList) where
  wildcard_findings-AreFiled :
      (domain : Bytes) (w : Option WildcardReport) → AreFiled (wildcard_findings psl domain w)
  unfolding wildcard_findings www_wildcard severity_of
  wildcard_findings-AreFiled domain w = ground arith

  presence_warnings-AreFiled : (rep : Report) → AreFiled (presence_warnings psl rep)
  unfolding presence_warnings
  presence_warnings-AreFiled rep =
      let www = rep.dns.www in
      let p = address_warnings-AreFiled (lit "www") (get www (lit "A")) (get www (lit "AAAA")) in
      append-AreFiled _ _ (address_warnings-AreFiled _ _ _) (
        append-AreFiled
          (if registrable_domain psl rep.domain
            then address_warnings (lit "www") (get www (lit "A")) (get www (lit "AAAA"))
            else [])
          _ (ground (arith, p)) (ground (arith, mail_presence-AreFiled rep.dns.apex)))

  present_findings-AreFiled : (rep : Report) → AreFiled (present_findings psl rep)
  unfolding present_findings
  present_findings-AreFiled rep =
      append-AreFiled _ _ (each-AreFiled _ (λ t. lookup_findings-AreFiled _ t _ _) apex_types) (
        append-AreFiled _ _ (each-AreFiled _ (λ t. lookup_findings-AreFiled _ t _ _) www_types)
          (append-AreFiled _ _ (zone_kind_findings-AreFiled rep) (presence_warnings-AreFiled rep)))

  dns_findings-AreFiled : (rep : Report) → AreFiled (dns_findings psl rep)
  unfolding dns_findings or_present
  dns_findings-AreFiled rep = elim (Option-cases (apex_missing rep)) [
    | inl e ↦ ground (arith, e, present_findings-AreFiled rep)
    | inr (xs, e) ↦ ground (arith, e, present_findings-AreFiled rep, apex_missing-AreFiled rep xs e)
  ]

module _ (out : Outside) where
  deep_findings-AreFiled : (rep : Report) → AreFiled (deep_findings out rep)
  unfolding deep_findings
  deep_findings-AreFiled rep = append-AreFiled _ _ (reserved_findings-AreFiled _) (
      append-AreFiled _ _ (wildcard_findings-AreFiled out.psl _ rep.wildcard) (
        append-AreFiled _ _ (tls_findings-AreFiled _ rep.web.apex rep.web.www) (
          append-AreFiled _ _ (tls_findings-AreFiled _ rep.web.www rep.web.apex) (
            append-AreFiled _ _ (http_findings-AreFiled out.urls _ rep.web.apex _) (
              append-AreFiled _ _ (http_findings-AreFiled out.urls _ rep.web.www _) (
                append-AreFiled _ _ (consistency_findings-AreFiled out.urls out.dp _ rep.web) (
                  append-AreFiled _ _ (mail_findings-AreFiled rep.mail _) (
                    append-AreFiled _ _ (ns_findings-AreFiled out.net rep.nameservers) (
                      append-AreFiled _ _ (caa_findings-AreFiled out.quoted rep.caa) (
                        append-AreFiled _ _ (tlsa_findings-AreFiled rep.tlsa)
                          (preload_findings-AreFiled rep)))))))))))

  unreachable_findings-AreFiled : (rep : Report) → AreFiled (unreachable_findings out rep)
  unfolding unreachable_findings severity_of
  unreachable_findings-AreFiled rep =
      append-AreFiled _ _ (reachability_findings-AreFiled _) (
        append-AreFiled _ _ (deadline_findings-AreFiled rep)
          (refl, rdap_findings-AreFiled rep.rdap))

  reserved_name_findings-AreFiled : (rep : Report) → AreFiled (reserved_name_findings out rep)
  unfolding reserved_name_findings severity_of
  reserved_name_findings-AreFiled rep =
      append-AreFiled _ _ (reachability_findings-AreFiled _)
        (append-AreFiled _ _ (deadline_findings-AreFiled rep) (refl, tt))

  all_findings-AreFiled : (rep : Report) → AreFiled (all_findings out rep)
  unfolding all_findings
  all_findings-AreFiled rep = append-AreFiled _ _ (dns_findings-AreFiled out.psl rep) (
      append-AreFiled _ _ (rdap_findings-AreFiled rep.rdap) (
        append-AreFiled _ _ (dnssec_findings-AreFiled rep) (
          append-AreFiled _ _ (delegation_findings-AreFiled rep) (
            append-AreFiled _ _ (reachability_findings-AreFiled _) (
              append-AreFiled _ _ (deadline_findings-AreFiled rep) (
                append-AreFiled _ _ (web_findings-AreFiled _ rep.web.apex) (
                  append-AreFiled _ _ (web_findings-AreFiled _ rep.web.www)
                    (deep_findings-AreFiled rep))))))))

  findings_of-AreFiled : (rep : Report) → AreFiled (findings_of out rep)
  unfolding findings_of
  findings_of-AreFiled rep = ground (
    arith,
    unreachable_findings-AreFiled rep,
    reserved_name_findings-AreFiled rep,
    all_findings-AreFiled rep,
  )

  -- Every finding of a report has the severity of its code: one code never has two.
  pub build_findings-AreFiled : (rep : Report) → AreFiled (build_findings out rep).entries
  build_findings-AreFiled rep = rw (build_findings-mirrors out rep).0 (findings_of-AreFiled rep)
