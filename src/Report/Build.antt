-- ===== src/Report/Build.antt =====
-- report.go: `deepFindings` and `buildFindings`.
use domaintest.Prelude.{if◌then◌else◌, is_nil, not, List, [], ◌∷◌, ◌++◌}
use domaintest.Findings.Mail.{mail_findings}
use domaintest.Findings.Web.{web_findings}
use domaintest.Findings.Redirects.{http_findings}
use domaintest.Findings.Servers.{describe_silent_servers, ns_findings}
use domaintest.Findings.Tls.{tls_findings}
use domaintest.Report.Presence.{dns_findings}
use domaintest.Report.Zone.{
  reachability_findings, zone_unreachable, deadline_findings, rdap_findings, dnssec_findings,
  delegation_findings, zone_validation_broken,
}
use domaintest.Report.Policies.{
  preload_covers, reserved_findings, wildcard_findings, caa_findings, tlsa_findings,
  preload_findings,
}
use domaintest.Text.{Bytes, lit}
use domaintest.Codes.{Code}
use domaintest.Findings.{Finding, fail, warn, finish, collect, no_findings}
use domaintest.Report.{Report}
use domaintest.Findings.{Conclusion}
use domaintest.Zone.{SuffixList}
use domaintest.Urls.{UrlLibrary}
use domaintest.Names.{Dpdomain}
use domaintest.Addr.{NetIp}
use domaintest.WebConsistency.Collect.{consistency_findings}

-- What the rules take from outside the repository.
pub record Outside : Type 0 where
  pub net : NetIp
  pub dp : Dpdomain
  pub urls : UrlLibrary
  pub psl : SuffixList
  pub quoted : Bytes → Bytes

module _ (out : Outside) where
  -- `deepFindings`
  unfoldable pub deep_findings : Report → List Finding
  deep_findings rep =
      let (apex_preloaded, www_preloaded) = preload_covers rep in
      reserved_findings rep.reserved_addresses
      ++ (wildcard_findings out.psl rep.domain rep.wildcard
          ++ (tls_findings (lit "apex") rep.web.apex rep.web.www
              ++ (tls_findings (lit "www") rep.web.www rep.web.apex
                  ++ (http_findings out.urls (lit "apex") rep.web.apex apex_preloaded
                      ++ (http_findings out.urls (lit "www") rep.web.www www_preloaded
                          ++ (consistency_findings out.dp out.urls rep.domain rep.web
                              ++ (mail_findings rep.mail (zone_validation_broken rep)
                                  ++ (ns_findings out.net rep.nameservers
                                      ++ (caa_findings out.quoted rep.caa
                                          ++ (tlsa_findings rep.tlsa
                                              ++ preload_findings rep))))))))))

  -- The findings of `buildFindings`, in their order.
  unfoldable pub unreachable_findings : Report → List Finding
  unreachable_findings rep =
      reachability_findings rep.dns.resolver_reachable
      ++ (deadline_findings rep
          ++ (fail Code.zone_unreachable [] (
                lit "no delegated nameserver answers for the zone: "
                ∷ describe_silent_servers rep.nameservers
                ∷ [])
              ++ rdap_findings rep.rdap))

  unfoldable pub reserved_name_findings : Report → List Finding
  reserved_name_findings rep =
      reachability_findings rep.dns.resolver_reachable
      ++ (deadline_findings rep
          ++ warn Code.reserved_name [] (
              rep.domain
              ∷ lit " is reserved by "
              ∷ rep.reserved_name
              ∷ lit
                  " and is not served by the global DNS: delegation and DNSSEC checks do not apply"
              ∷ []))

  unfoldable pub all_findings : Report → List Finding
  all_findings rep =
      dns_findings out.psl rep
      ++ (rdap_findings rep.rdap
          ++ (dnssec_findings rep
              ++ (delegation_findings rep
                  ++ (reachability_findings rep.dns.resolver_reachable
                      ++ (deadline_findings rep
                          ++ (web_findings (lit "apex") rep.web.apex
                              ++ (web_findings (lit "www") rep.web.www ++ deep_findings rep)))))))

  unfoldable pub findings_of : Report → List Finding
  unfolding unreachable_findings reserved_name_findings
  findings_of rep =
      if zone_unreachable rep
      then unreachable_findings rep
      else if not (is_nil rep.reserved_name)
      then reserved_name_findings rep
      else all_findings rep

  -- `buildFindings`
  unfoldable pub build_findings : Report → Conclusion
  build_findings rep = finish (collect (findings_of rep) no_findings)
