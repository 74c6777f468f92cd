-- ===== src/Tests/Delegation.antt =====
-- The delegation from a trace, and the audit of the nameservers.
use domaintest.Prelude.{
  if◌then◌else◌, ℤ, ℕ, ◌≡◌, refl, true, false, Option, none, some, List, [], ◌∷◌, ◌++◌, pos,
}
use domaintest.Text.Sort.{sort_strings}
use domaintest.Glue.{
  check_glue, is_referral, glue_addresses, has_glue, in_bailiwick, is_glue, compare_glue,
}
use domaintest.Dig.{run_dig, message_records, has_flag, DigMessage, empty_message}
use domaintest.Records.Parse.{parse_rr, after_fields, unquote_yaml}
use domaintest.Names.{fqdn_of}
use domaintest.NsAudit.Serials.{verdict, audit_all_lem, summary, serials_consistent_lem}
use domaintest.NsAudit.Plan.{IsPlan, plan_lem}
use domaintest.NsAudit.Server.{IsAudited, audit_server_lem}
use domaintest.NsAudit.{
  audit_server, NsServer, serials_consistent, audit_all, new_server, unanswered, no_answer_texts,
  udp_aa, soa_serial,
}
use domaintest.Trace.Compare.{
  IsCompared, IsAsked, trace_delegation_lem, compare_delegation-IsCompared,
}
use domaintest.Text.{Bytes, lit, contains, join, first_non_empty}
use mathlib.Core.List.Perm
use domaintest.Tests.Data.{numbers, plain, printed, timed_out_run, rr_of, texts}
use domaintest.Addr.{Addr}
use domaintest.Trace.{
  TraceBlock, DelegationStatus, with_ns, compare_delegation, ReceivedRe, ns_for, parse_trace,
  soa_only_child,
}
use domaintest.Trace.Ask.{Runner, traced, trace_delegation, answers_for}

delegation : Unit {0}
unfolding with_ns ns_for fqdn_of compare_delegation parse_trace trace_delegation traced parse_rr
    after_fields soa_only_child answers_for
delegation = tt

abbrev domain : Bytes
domain = lit "x.org"

abbrev parent_block : TraceBlock
parent_block = record {
  rrs = rr_of (lit "x.org.") (lit "NS") (lit "a.") ∷ [];
  server = lit "top";
  ip = lit "1";
}

abbrev child_block : TraceBlock
child_block = record {
  rrs =
      rr_of (lit "x.org.") (lit "NS") (lit "a.") ∷ rr_of (lit "x.org.") (lit "NS") (lit "b.") ∷ [];
  server = lit "a";
  ip = lit "2";
}

compare_delegation-IsCompared_example :
    IsCompared plain
      (compare_delegation plain (parent_block ∷ child_block ∷ []) [] domain)
      (ns_for plain parent_block (fqdn_of plain domain))
      (ns_for plain child_block (fqdn_of plain domain))
compare_delegation-IsCompared_example =
    compare_delegation-IsCompared plain (parent_block ∷ child_block ∷ []) [] domain parent_block
      (child_block ∷ []) (child_block, []) [] (unfold texts delegation in refl)

abbrev trace_text : Bytes
trace_text = lit "x.org. 60 IN NS a." ++ (10 ∷ lit ";; Received 9")

abbrev received : ReceivedRe
received line = some (lit "1", lit "top")

abbrev trace_run : Runner
trace_run args =
    if contains (lit "+trace") args then printed trace_text else printed (lit "flags: qr aa")

trace_tests :
    ((traced plain received trace_run false 4 domain).status ≡ DelegationStatus.no_child_answer)
    × ((trace_delegation plain received trace_run true false 4 domain).status
        ≡ DelegationStatus.same_servers)
unfolding texts delegation
trace_tests = (refl, refl)

trace_delegation_lem_example : IsAsked plain received trace_run true false 4 domain
trace_delegation_lem_example = trace_delegation_lem plain received trace_run true false 4 domain

-- A server that answers with a SOA record, one that does not answer, and one that refuses.
abbrev soa_text : Bytes
soa_text =
    join
      (lit "- type: MESSAGE"
        ∷ lit "status: NOERROR"
        ∷ lit "flags: qr aa"
        ∷ lit "ANSWER_SECTION:"
        ∷ lit "- 'x.org. 60 IN SOA a. b. 7 1 1 1 1'"
        ∷ [])
      (10 ∷ [])

abbrev silent : Runner
silent args = timed_out_run

abbrev healthy : Runner
healthy args = printed soa_text

abbrev audit_of : Option NsServer → Option (Bytes × ℤ × ℕ)
audit_of none = none
audit_of (some s) = some (s.error, s.serial, s.retries)

audit_tests :
    (audit_of (audit_server numbers silent healthy true (lit "ns.") (Addr.v4 70) domain 4)
      ≡ some ([], pos 7, 1))
    × (audit_of (audit_server numbers silent silent true (lit "ns.") (Addr.v4 70) domain 4)
        ≡ some (lit "dig timed out", pos 0, 1))
    × (audit_of (audit_server numbers healthy silent true (lit "ns.") (Addr.v4 70) domain 4)
        ≡ some ([], pos 7, 0))
unfolding texts delegation audit_server run_dig unanswered first_non_empty no_answer_texts
    unquote_yaml udp_aa message_records has_flag soa_serial
audit_tests = (refl, refl, refl)

audit_server_lem_example : IsAudited numbers silent healthy true (lit "ns.") (Addr.v4 70) domain 4
audit_server_lem_example =
    audit_server_lem numbers silent healthy true (lit "ns.") (Addr.v4 70) domain 4

abbrev with_serial : ℕ → NsServer
with_serial n = record (new_server (lit "ns.") (lit "70")) { aa = true; serial = pos n }

serials_consistent_lem_example :
    (serials_consistent (with_serial 7 ∷ with_serial 8 ∷ [])
      ≡ verdict (summary (with_serial 7 ∷ with_serial 8 ∷ [])))
    × (serials_consistent (with_serial 7 ∷ with_serial 8 ∷ [])
        ≡ serials_consistent (with_serial 8 ∷ with_serial 7 ∷ []))
serials_consistent_lem_example =
    serials_consistent_lem (Perm.swap (with_serial 8) (with_serial 7) [])

audit_all_lem_example :
    (audit_all [] (with_serial 7 ∷ with_serial 8 ∷ [])).1
    ≡ (audit_all [] (with_serial 8 ∷ with_serial 7 ∷ [])).1
audit_all_lem_example = audit_all_lem [] (Perm.swap (with_serial 8) (with_serial 7) [])

plan_lem_example :
    IsPlan numbers (lit "ipv4" ∷ []) ((lit "ns.", Addr.v4 3) ∷ (lit "ns.", Addr.v4 70) ∷ [])
plan_lem_example =
    plan_lem numbers (lit "ipv4" ∷ []) ((lit "ns.", Addr.v4 3) ∷ (lit "ns.", Addr.v4 70) ∷ [])

glue : Unit {0}
unfolding check_glue is_referral fqdn_of glue_addresses has_glue in_bailiwick is_glue compare_glue
    sort_strings
glue = tt

-- The parent sends glue for a.x.org only.
abbrev referral : DigMessage
referral = record empty_message {
  status = lit "NOERROR";
  authority = rr_of (lit "x.org.") (lit "NS") (lit "a.x.org.") ∷ [];
  additional = rr_of (lit "a.x.org.") (lit "A") (lit "70") ∷ [];
}

abbrev some_ns_names : List Bytes
some_ns_names = lit "b.x.org." ∷ lit "a.x.org." ∷ lit "c.net." ∷ []

abbrev seventy_one : Bytes → List Addr
seventy_one name = Addr.v4 70 ∷ Addr.v4 71 ∷ []

glue_tests :
    check_glue numbers plain (referral ∷ []) domain some_ns_names seventy_one
    ≡ some (record {
      required = lit "a.x.org." ∷ lit "b.x.org." ∷ [];
      missing = lit "b.x.org." ∷ [];
      mismatch = lit "a.x.org. 71" ∷ [];
    })
unfolding texts glue
glue_tests = refl
