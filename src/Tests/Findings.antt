-- ===== src/Tests/Findings.antt =====
-- The findings of a report, at concrete reports.
use domaintest.Findings.Servers.{no_server_answers}
use domaintest.Prelude.{is_nil, any, All, ◌≡◌, refl, ◌↔◌, true, false, none, some, [], ◌∷◌, pos}
use domaintest.Report.Severities.{AreFiled}
use domaintest.Report.Zone.{zone_unreachable, delegation_silent}
use domaintest.Text.{lit, ◌=?◌}
use domaintest.Tests.Data.{numbers, plain, found}
use domaintest.Report.{Report, Reach, Preload, is_unreachable}
use domaintest.Report.Build.{Outside, build_findings, findings_of}
use domaintest.Report.Mirror.{messages, is_fail, is_warn, build_findings-mirrors}
use domaintest.Report.Severities.ByReport.{build_findings-AreFiled}
use domaintest.Report.Verdicts.{build_findings-reserved, build_findings-unreachable, is_kept}
use domaintest.Records.{LookupStatus, Trust, get}
use domaintest.Dnssec.{DnssecState}
use domaintest.Trace.{DelegationStatus, no_delegation}

-- A world without redirects, in which every name is a registrable domain.
abbrev world : Outside
world = record {
  net = numbers;
  dp = plain;
  urls = record { parse = λ s. none; resolve = λ u s. none };
  psl = λ s. record { registrable = s; suffix = []; icann = false };
  quoted = λ s. s;
}

-- An unsigned zone of which nothing else is known, with a resolver that one family does not reach.
abbrev bare_report : Report
bare_report = record {
  domain = lit "a.b";
  not_a_zone = false;
  reserved_name = [];
  enclosing_zone = [];
  max_time_sec = pos 60;
  dns = record {
    apex = (lit "NS", found LookupStatus.ok Trust.insecure (lit "n.b." ∷ [])) ∷ [];
    www = [];
    resolver_reachable = (lit "ipv6", Reach.no) ∷ (lit "ipv4", Reach.yes) ∷ [];
  };
  dnssec = record {
    state = DnssecState.insecure;
    ds = false;
    dnskey = false;
    ede = [];
    detail = [];
  };
  delegation = no_delegation;
  web = record { apex = none; www = none };
  mail = none;
  nameservers = none;
  caa = none;
  tlsa = none;
  wildcard = none;
  rdap = none;
  reserved_addresses = lit "10.0.0.1 (private)" ∷ [];
  hsts_preload = Preload.unset;
  hsts_preload_covered_by = [];
  hsts_preload_policy = [];
  hsts_preload_error = [];
  hsts_preload_include_subdomains = none;
  deadline_reached = false;
}

abbrev reserved_report : Report
reserved_report = record bare_report { domain = lit "test"; reserved_name = lit "RFC 6761" }

-- A zone whose only nameserver has no address.
abbrev dead_report : Report
dead_report = record bare_report {
  dns = record bare_report.dns { apex = [] };
  delegation = record no_delegation {
    status = DelegationStatus.no_child_answer;
    parent_server = lit "p.b.";
  };
  nameservers = some (record {
    count = 1;
    servers = [];
    serials_consistent = none;
    ipv4_prefixes_24 = none;
    ipv6_prefixes_48 = none;
    glue = none;
    ns_domains = [];
    ns_cname = [];
    unresolvable = lit "n.b." ∷ [];
    unresolved = [];
    addrs = [];
  });
}

reserved_is_named : is_nil reserved_report.reserved_name ≡ false
unfolding lit
reserved_is_named = refl

dead_is_unreachable : zone_unreachable dead_report ≡ true
unfolding zone_unreachable delegation_silent no_server_answers get lit ◌=?◌
dead_is_unreachable = refl

build_findings-mirrors_example :
    ((build_findings world bare_report).entries ≡ findings_of world bare_report)
    × ((build_findings world bare_report).errors ≡ messages is_fail (findings_of world bare_report))
    × ((build_findings world bare_report).warnings
        ≡ messages is_warn (findings_of world bare_report))
    × (((build_findings world bare_report).fine ≡ true)
        ↔ (any (λ x. is_fail x.severity) (findings_of world bare_report) ≡ false))
build_findings-mirrors_example = build_findings-mirrors world bare_report

build_findings-AreFiled_example : AreFiled (build_findings world bare_report).entries
build_findings-AreFiled_example = build_findings-AreFiled world bare_report

build_findings-reserved_example :
    ((build_findings world reserved_report).fine ≡ true)
    ↔ (any (λ r. is_unreachable r.1) reserved_report.dns.resolver_reachable ≡ false)
build_findings-reserved_example = build_findings-reserved world reserved_report reserved_is_named

build_findings-unreachable_example :
    ((build_findings world dead_report).fine ≡ false)
    × All (λ x. is_kept x.code ≡ true) (build_findings world dead_report).entries
build_findings-unreachable_example =
    build_findings-unreachable world dead_report dead_is_unreachable
