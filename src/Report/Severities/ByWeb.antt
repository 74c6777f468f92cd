-- ===== src/Report/Severities/ByWeb.antt =====
-- The severities of the findings on the web.
use domaintest.Prelude.{ℕ, refl, Bool, Option, none, some, List, [], ◌∷◌, arith}
use domaintest.Text.{Bytes}
use domaintest.WebConsistency.Collect.{judge_groups, consistency_findings, differing, sent_back}
use domaintest.Findings.Redirects.{
  chain_finding, chain_notes, loop_failures, downgrade_warnings, redirect_findings, http_findings,
  judge_chain, downgrade_findings, last_answer,
}
use domaintest.Report.Severities.{AreFiled, append-AreFiled, severity_of}
use domaintest.Web.{AddrWeb, HostWeb, TlsResult, RedirectChain, WebSection, web_addrs}
use domaintest.Findings.Web.{
  HostVersions, listener_findings, all_listeners, quic_partial, quic_findings, version_facts,
  port80_partial_findings, web_findings, without_https, http_version_findings,
}
use domaintest.Findings.Http.{
  StatusTally, status_verdict, cleartext_findings, hsts_findings, served_clear, status_findings,
  sent_elsewhere, sent_for_now,
}
use domaintest.Findings.Tls.{
  ChainTally, chain_failures, expiry_findings, coverage_findings, version_findings, tls_findings,
  chain_findings, with_tls, judge_results,
}
use domaintest.WebConsistency.{UrlObservations}
use domaintest.Urls.{UrlLibrary}
use domaintest.Names.{Dpdomain}

listener_findings-AreFiled : (label : Bytes) (a : AddrWeb) → AreFiled (listener_findings label a)
unfolding listener_findings without_https severity_of
listener_findings-AreFiled label a = ground arith

all_listeners-AreFiled : (label : Bytes) (ips : List AddrWeb) → AreFiled (all_listeners label ips)
unfolding all_listeners
all_listeners-AreFiled label [] = tt
all_listeners-AreFiled label (a ∷ rest) =
    append-AreFiled _ _ (listener_findings-AreFiled label a) (all_listeners-AreFiled label rest)

quic_partial-AreFiled : (label : Bytes) (ips : List AddrWeb) → AreFiled (quic_partial label ips)
unfolding quic_partial severity_of
quic_partial-AreFiled label [] = tt
quic_partial-AreFiled label (a ∷ rest) = ground (arith, quic_partial-AreFiled label rest)

quic_findings-AreFiled : (label : Bytes) (ips : List AddrWeb) → AreFiled (quic_findings label ips)
unfolding quic_findings
quic_findings-AreFiled label ips = ground (arith, quic_partial-AreFiled label ips)

version_facts-AreFiled : (label : Bytes) (t : HostVersions) → AreFiled (version_facts label t)
unfolding version_facts severity_of
version_facts-AreFiled label t = ground arith

port80_partial_findings-AreFiled :
    (label : Bytes) (ips : List AddrWeb) → AreFiled (port80_partial_findings label ips)
unfolding port80_partial_findings severity_of
port80_partial_findings-AreFiled label ips = ground arith

pub web_findings-AreFiled : (label : Bytes) (h : Option HostWeb) → AreFiled (web_findings label h)
unfolding web_findings http_version_findings
web_findings-AreFiled label h = append-AreFiled _ _ (all_listeners-AreFiled label _) (
    append-AreFiled _ _ (quic_findings-AreFiled label _) (
      append-AreFiled _ _ (version_facts-AreFiled label _)
        (port80_partial_findings-AreFiled label _)))

chain_failures-AreFiled :
    (label : Bytes) (total : ℕ) (cs : List ChainTally) → AreFiled (chain_failures label total cs)
unfolding chain_failures severity_of
chain_failures-AreFiled label total [] = tt
chain_failures-AreFiled label total (c ∷ cs) = (refl, chain_failures-AreFiled label total cs)

expiry_findings-AreFiled :
    (label : Bytes) (rs : List TlsResult) → AreFiled (expiry_findings label rs)
unfolding expiry_findings severity_of
expiry_findings-AreFiled label rs = ground arith

coverage_findings-AreFiled :
    (label : Bytes) (rs : List TlsResult) (h : Option HostWeb)
    → AreFiled (coverage_findings label rs h)
unfolding coverage_findings severity_of
coverage_findings-AreFiled label rs h = ground arith

version_findings-AreFiled :
    (label : Bytes) (rs : List TlsResult) → AreFiled (version_findings label rs)
unfolding version_findings severity_of
version_findings-AreFiled label rs = ground arith

judge_results-AreFiled :
    (label : Bytes) (consistent : Option Bool) (sibling : Option HostWeb) (rs : List TlsResult)
    → AreFiled (judge_results label consistent sibling rs)
unfolding judge_results chain_findings severity_of
judge_results-AreFiled label consistent sibling rs =
    append-AreFiled _ _ (chain_failures-AreFiled label _ _) (
      append-AreFiled _ _ (expiry_findings-AreFiled label rs) (
        append-AreFiled _ _ (coverage_findings-AreFiled label rs sibling)
          (append-AreFiled _ _ (version_findings-AreFiled label rs) (ground arith))))

pub tls_findings-AreFiled :
    (label : Bytes) (h sibling : Option HostWeb) → AreFiled (tls_findings label h sibling)
unfolding tls_findings with_tls web_addrs
tls_findings-AreFiled label none sibling = tt
tls_findings-AreFiled label (some h) sibling =
    ground (
      arith,
      judge_results-AreFiled label h.cert_consistent sibling (with_tls (web_addrs (some h))),
    )

status_verdict-AreFiled :
    (label port : Bytes) (t : StatusTally) → AreFiled (status_verdict label port t)
unfolding status_verdict severity_of
status_verdict-AreFiled label port t = ground arith

cleartext_findings-AreFiled :
    (label : Bytes) (ips : List AddrWeb) (preloaded : Bool)
    → AreFiled (cleartext_findings label ips preloaded)
unfolding cleartext_findings served_clear sent_elsewhere sent_for_now severity_of
cleartext_findings-AreFiled label ips preloaded = ground arith

hsts_findings-AreFiled : (label : Bytes) (ips : List AddrWeb) → AreFiled (hsts_findings label ips)
unfolding hsts_findings severity_of
hsts_findings-AreFiled label ips = ground arith

chain_finding-AreFiled :
    (label fam : Bytes) (c : RedirectChain) → AreFiled (chain_finding label fam c).1
unfolding chain_finding judge_chain last_answer severity_of
chain_finding-AreFiled label fam c = ground arith

chain_notes-AreFiled :
    (label : Bytes) (chains : List (Bytes × RedirectChain)) → AreFiled (chain_notes label chains)
unfolding chain_notes
chain_notes-AreFiled label [] = tt
chain_notes-AreFiled label ((fam, c) ∷ rest) =
    append-AreFiled _ _ (chain_finding-AreFiled label fam c) (chain_notes-AreFiled label rest)

loop_failures-AreFiled :
    (label : Bytes) (groups : List (Bytes × List Bytes)) → AreFiled (loop_failures label groups)
unfolding loop_failures severity_of
loop_failures-AreFiled label [] = tt
loop_failures-AreFiled label ((text, fams) ∷ rest) = (refl, loop_failures-AreFiled label rest)

module _ (urls : UrlLibrary) where
  downgrade_warnings-AreFiled :
      (label : Bytes) (groups : List (Bytes × List Bytes))
      → AreFiled (downgrade_warnings urls label groups)
  unfolding downgrade_warnings severity_of
  downgrade_warnings-AreFiled label [] = tt
  downgrade_warnings-AreFiled label ((hop, fams) ∷ rest) =
      (refl, downgrade_warnings-AreFiled label rest)

  downgrade_findings-AreFiled :
      (label : Bytes) (chains : List (Bytes × RedirectChain))
      → AreFiled (downgrade_findings urls label chains)
  unfolding downgrade_findings
  downgrade_findings-AreFiled label chains = downgrade_warnings-AreFiled label _

  redirect_findings-AreFiled :
      (label : Bytes) (chains : List (Bytes × RedirectChain))
      → AreFiled (redirect_findings urls label chains)
  unfolding redirect_findings
  redirect_findings-AreFiled label chains = append-AreFiled _ _ (chain_notes-AreFiled label _) (
      append-AreFiled _ _ (downgrade_findings-AreFiled label chains)
        (loop_failures-AreFiled label _))

  pub http_findings-AreFiled :
      (label : Bytes) (h : Option HostWeb) (preloaded : Bool)
      → AreFiled (http_findings urls label h preloaded)
  unfolding http_findings status_findings
  http_findings-AreFiled label none preloaded = tt
  http_findings-AreFiled label (some h) preloaded =
      append-AreFiled _ _ (status_verdict-AreFiled label _ _) (
        append-AreFiled _ _ (status_verdict-AreFiled label _ _) (
          append-AreFiled _ _ (cleartext_findings-AreFiled label _ preloaded) (
            append-AreFiled _ _ (redirect_findings-AreFiled label h.redirects)
              (hsts_findings-AreFiled label _))))

  module _ (dp : Dpdomain) where
    judge_groups-AreFiled : (groups : List UrlObservations) → AreFiled (judge_groups dp urls groups)
    unfolding judge_groups differing sent_back severity_of
    judge_groups-AreFiled [] = tt
    judge_groups-AreFiled (g ∷ rest) = ground (arith, judge_groups-AreFiled rest)

    pub consistency_findings-AreFiled :
        (domain : Bytes) (web : WebSection) → AreFiled (consistency_findings dp urls domain web)
    unfolding consistency_findings
    consistency_findings-AreFiled domain web = judge_groups-AreFiled _
