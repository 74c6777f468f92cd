-- ===== src/Tests/Servers.antt =====
-- The tallies and the verdicts on nameservers, mail, statuses and answers, at concrete inputs.
use domaintest.Prelude.{
  ltb, if◌then◌else◌, is_none, length, any, All, ℕ, ◌≡◌, refl, true, false, not, ◌&&◌, ◌||◌, Option,
  none, some, List, [], ◌∷◌, map,
}
use domaintest.Findings.Web.{quic_supported}
use domaintest.Spf.{evaluate_spf}
use domaintest.Codes.{Code, Severity}
use domaintest.Report.Zone.{status_key}
use domaintest.Mail.Mx.{check_mx}
use domaintest.Mail.Policy.{parse_dmarc}
use domaintest.Findings.Mail.{
  dmarc_findings, mx_findings, spf_problem_class, spf_classes, class_in, dmarc_problem_class,
  mx_problem_code, spf_findings,
}
use domaintest.Findings.Http.{status_findings, distinct_statuses, sort_ints}
use domaintest.Report.Specific.{AreSpecific, mail_problems-specific}
use domaintest.Findings.Count.{tally_servers}
use domaintest.Text.Laws.{IsDistinct}
use domaintest.Text.{lit, Bytes, ◌=?◌, cut, contains}
use domaintest.Tests.Data.{numbers, plain, found, texts}
use domaintest.NsAudit.{NsServer, new_server}
use domaintest.Findings.Tallies.{IsCount, tally_servers_lem, is_named}
use domaintest.Findings.Silence.{IsSilenceVerdict, server_findings-silence}
use domaintest.Findings.Statuses.{
  status_findings_iff, every, is_code_error, is_server_error, is_code_partial, is_code_refused,
  is_refusal, is_code_client, is_client_error, is_warning,
}
use domaintest.Versions.{
  AddrProbe, http_versions_for, h3_advertised_in, http3_verdict, offers_h3, answered_reasons,
}
use domaintest.Versions.Silence.{
  http_versions_for_lem, shook_hands, was_answered, quic_refused, quic_timed_out, lists_no_h3,
  lists_h3,
}
use domaintest.Web.{PortState, QuicResult, HttpResult, is_true, is_refused, is_known_false}
use domaintest.WebConsistency.{WebObservation, answer_tally, count_answers}
use domaintest.WebConsistency.Answers.{agree, sum, answer_tally-agree}
use domaintest.Records.{Lookup, LookupStatus, Trust, no_lookup}

-- One nameserver that is authoritative at one address and silent at another, and one that is lame.
abbrev authoritative : NsServer
authoritative = record (new_server (lit "n.b.") (lit "7")) { aa = true }

abbrev silent_one : NsServer
silent_one = record (new_server (lit "n.b.") (lit "8")) { error = lit "no response" }

abbrev lame_one : NsServer
lame_one = record (new_server (lit "m.b.") (lit "9")) { error = lit "not authoritative (REFUSED)" }

abbrev audited : List NsServer
audited = authoritative ∷ lame_one ∷ silent_one ∷ []

tally_servers_lem_example :
    ((n : Bytes)
      → contains n (map (λ t. t.name) (tally_servers audited)) ≡ any (is_named n) audited)
    × IsDistinct (map (λ t. t.name) (tally_servers audited))
    × All (IsCount audited) (tally_servers audited)
tally_servers_lem_example = tally_servers_lem audited

server_findings-silence_example : IsSilenceVerdict (lit "n.b.") audited
server_findings-silence_example = server_findings-silence (lit "n.b.") audited

-- The statuses of a port: one server error among two answers.
abbrev answer_with : ℕ → Option HttpResult
answer_with s =
    some (record { status = s; location = []; server = []; hsts = none; alt_svc = []; error = [] })

abbrev mixed : List (Option HttpResult)
mixed = answer_with 503 ∷ none ∷ answer_with 200 ∷ []

status_findings_iff_example :
    (any (λ x. is_code_error x.code) (status_findings (lit "apex") (lit "80") mixed)
      ≡ every is_server_error mixed)
    × (any (λ x. is_code_partial x.code) (status_findings (lit "apex") (lit "80") mixed)
        ≡ (any is_server_error mixed && not (every is_server_error mixed)))
    × (any (λ x. is_code_refused x.code) (status_findings (lit "apex") (lit "80") mixed)
        ≡ every is_refusal mixed)
    × (any (λ x. is_code_client x.code) (status_findings (lit "apex") (lit "80") mixed)
        ≡ (every is_client_error mixed && not (every is_refusal mixed)))
    × (any is_warning (status_findings (lit "apex") (lit "80") mixed) ≡ (
        (any is_server_error mixed && not (every is_server_error mixed))
        || (every is_client_error mixed && not (every is_refusal mixed))))
status_findings_iff_example = status_findings_iff (lit "apex") (lit "80") mixed

-- Two answers to one URL.
abbrev seen : Bytes → WebObservation
seen a = record { answer = a; self = false; probe = true; source = lit "7" }

abbrev two_answers : List WebObservation
two_answers = seen (lit "200") ∷ seen (lit "404") ∷ seen (lit "200") ∷ []

answer_tally-agree_example :
    (ltb 1 (length (answer_tally two_answers)) ≡ not (agree two_answers))
    × (sum (count_answers two_answers) ≡ length two_answers)
answer_tally-agree_example = answer_tally-agree two_answers

-- A resolver that knows one name.
abbrev one_name : Bytes → Bytes → Lookup
one_name n t =
    if n =? lit "n.b." then found LookupStatus.ok Trust.unset (lit "70" ∷ []) else no_lookup

-- A DMARC record with an unknown policy, and an MX record of an IP literal's name.
abbrev bad_dmarc : Lookup
bad_dmarc = found LookupStatus.ok Trust.unset (lit "v=DMARC1; p=maybe; pct=200" ∷ [])

abbrev two_mx : Lookup
two_mx = found LookupStatus.ok Trust.unset (lit "10 n.b." ∷ lit "0 ." ∷ [])

-- An SPF record that includes a name without one, and that lets every sender pass.
abbrev open_spf : Lookup
open_spf = found LookupStatus.ok Trust.unset (lit "v=spf1 include:n.b +all" ∷ [])

mail_problems-specific_example :
    AreSpecific
      (spf_findings (evaluate_spf numbers (λ s. none) plain one_name (lit "a.b") open_spf).problems)
    × AreSpecific (dmarc_findings (parse_dmarc bad_dmarc))
    × AreSpecific (mx_findings (check_mx numbers plain one_name two_mx))
mail_problems-specific_example =
    mail_problems-specific numbers plain one_name (λ s. none) (lit "a.b") open_spf bad_dmarc two_mx

-- The classes of some problems, and the list of statuses that were seen.
class_runs :
    (spf_problem_class (lit "+all authorises every sender (no protection)")
      ≡ (Code.spf_pass_all, Severity.fails))
    × (spf_problem_class (lit "apex TXT answer is 600 octets, over the 512-octet UDP limit")
        ≡ (Code.spf_txt_over_udp_limit, Severity.informs))
    × (dmarc_problem_class (lit "unknown policy p=maybe")
        ≡ (Code.dmarc_policy_unknown, Severity.fails))
    × (mx_problem_code (lit "MX target does not exist") ≡ Code.mx_target_nxdomain)
    × (distinct_statuses (403 ∷ 401 ∷ 403 ∷ []) ≡ lit "401/403")
    × (status_key (lit " client Hold") ≡ lit "clienthold")
unfolding texts spf_problem_class spf_classes class_in dmarc_problem_class mx_problem_code
    distinct_statuses status_key sort_ints
class_runs = (refl, refl, refl, refl, refl, refl)

-- An address that answers over TLS and offers HTTP/3, which does not answer.
abbrev h3_offered : AddrProbe
h3_offered = record {
  https = PortState.port_open;
  https_res = some (record {
    status = 200;
    location = [];
    server = [];
    hsts = none;
    alt_svc = lit "h2=\":443\", h3-29=\":443\"";
    error = [];
  });
  tls = none;
  http2 = some true;
}

abbrev quic_silent : Option QuicResult
quic_silent = some (record { supported = false; reason = lit "timeout" })

http_versions_for_lem_example :
    (is_true (http_versions_for h3_offered quic_silent).http1_1 ≡ (
      not (is_refused h3_offered.https)
      && (shook_hands h3_offered.tls && was_answered h3_offered.https_res)))
    × (is_true (http_versions_for h3_offered quic_silent).http3 ≡ quic_supported quic_silent)
    × (is_known_false (http_versions_for h3_offered quic_silent).http3 ≡ (
        quic_refused quic_silent
        || (quic_timed_out quic_silent && lists_no_h3 h3_offered.https_res)))
    × (is_true (http_versions_for h3_offered quic_silent).h3_advertised
        ≡ lists_h3 h3_offered.https_res)
    × (is_known_false (http_versions_for h3_offered quic_silent).h3_advertised
        ≡ lists_no_h3 h3_offered.https_res)
    × (is_none (http_versions_for h3_offered quic_silent).h3_advertised
        ≡ not (was_answered h3_offered.https_res))
http_versions_for_lem_example = http_versions_for_lem h3_offered quic_silent

-- It is unknown whether that address serves HTTP/3.
h3_unknown :
    ((http_versions_for h3_offered quic_silent).h3_advertised ≡ some true)
    × ((http_versions_for h3_offered quic_silent).http3 ≡ none)
unfolding texts http_versions_for h3_advertised_in http3_verdict offers_h3 answered_reasons cut
h3_unknown = (refl, refl)
