-- ===== src/Report/Zone.antt =====
-- report.go and rdap.go: the findings on the registration, the delegation, DNSSEC and the resolver.
use domaintest.Prelude.{
  ltb, ◌==◌, if◌then◌else◌, is_none, length, is_nil, all, keep, Bool, true, false, not, ◌&&◌, ◌||◌,
  Option, none, some, List, [], ◌∷◌, ◌++◌, map,
}
use domaintest.Findings.Servers.{no_server_answers}
use domaintest.Text.Sort.{sort_strings}
use domaintest.Text.Numbers.{itoa_int}
use domaintest.Text.{Bytes, lit, to_lower, contains, join, first_non_empty, concat, trim_space}
use domaintest.Codes.{Code}
use domaintest.Findings.{Finding, fail, warn, info}
use domaintest.Report.{Report, RdapReport, Reach, is_unreachable}
use domaintest.Trace.{Delegation, DelegationStatus}
use domaintest.Dnssec.{DnssecState, name_does_not_exist, apex_types}
use domaintest.Records.{Lookup, LookupMap, is_nxrrset, answered, get, has_records}
use domaintest.Findings.Mail.{each}

-- `statusKey` of rdap.go
unfoldable pub status_key : Bytes → Bytes
status_key s = keep (λ c. not (c == b' ' || c == b'_' || c == b'-')) (to_lower (trim_space s))

-- `rdapHoldStatus`, `rdapDeletionStatus` and `matchedStatuses`
unfoldable pub rdap_hold_status : List Bytes
rdap_hold_status = lit "clienthold" ∷ lit "serverhold" ∷ []

unfoldable pub rdap_deletion_status : List Bytes
rdap_deletion_status = lit "redemptionperiod" ∷ lit "pendingdelete" ∷ lit "pendingrestore" ∷ []

unfoldable pub matched_statuses : List Bytes → List Bytes → List Bytes
matched_statuses statuses set = keep (λ s. contains (status_key s) set) statuses

-- `rdapFindings`
unfoldable pub registered_statuses : RdapReport → List Finding
registered_statuses r =
    let held = matched_statuses r.status rdap_hold_status in
    let leaving = matched_statuses r.status rdap_deletion_status in
    (if ltb 0 (length held)
      then fail Code.domain_on_hold []
          (lit "RDAP reports " ∷ r.domain ∷ lit " on hold: " ∷ join held (lit ", ") ∷ [])
      else [])
    ++ ((if ltb 0 (length leaving)
          then warn Code.domain_pending_deletion [] (
              lit "RDAP reports "
              ∷ r.domain
              ∷ lit " being deleted: "
              ∷ join leaving (lit ", ")
              ∷ [])
          else [])
        ++ (if is_none r.registered
            then info Code.rdap_lookup_failed [] (
                lit "registry RDAP lookup for "
                ∷ r.domain
                ∷ lit " did not complete ("
                ∷ r.error
                ∷ lit "): registration status unknown"
                ∷ [])
            else []))

unfoldable pub rdap_findings : Option RdapReport → List Finding
unfolding registered_statuses
rdap_findings none = []
rdap_findings (some r) = registered_statuses r

-- `deadlineFindings`
unfoldable pub deadline_findings : Report → List Finding
deadline_findings rep =
    if rep.deadline_reached
    then info Code.run_deadline_reached [] (
        lit "the run reached its "
        ∷ itoa_int rep.max_time_sec
        ∷ lit "-second deadline; checks still running then were cut short"
        ∷ [])
    else []

-- `reachabilityFindings`: the families in their order, those not reached.
abbrev pub unreached : List (Bytes × Reach) → List Bytes
unreached reach = map (λ r. r.0) (keep (λ r. is_unreachable r.1) reach)

unfoldable pub reachability_findings : List (Bytes × Reach) → List Finding
reachability_findings reach =
    each (λ fam. fail Code.resolver_unreachable [] (lit "resolver not reachable over " ∷ fam ∷ []))
      (sort_strings (unreached reach))

-- `delegationSilent`
silent_status : DelegationStatus → Bool
silent_status DelegationStatus.no_child_answer = true
silent_status _ = false

unfoldable pub delegation_silent : Delegation → Lookup → Bool
unfolding silent_status
delegation_silent d apex_ns =
    silent_status d.status && not (is_nil d.parent_server) && not (is_nxrrset apex_ns.status)

-- `noRecordsAtAll` and `apexAbsent`
unfoldable pub no_records_at_all : LookupMap → Bool
no_records_at_all apex =
    all (λ t. answered (get apex t) && not (has_records (get apex t))) apex_types

unfoldable pub apex_absent : LookupMap → Bool
apex_absent apex = name_does_not_exist apex || no_records_at_all apex

-- `dnssecFindings`
unfoldable pub state_findings : Report → DnssecState → List Finding
state_findings rep DnssecState.bogus = fail Code.dnssec_bogus [] (
    lit "DNSSEC validation fails (bogus): "
    ∷ first_non_empty (rep.dnssec.ede ∷ rep.dnssec.detail ∷ [])
    ∷ [])
state_findings rep DnssecState.servfail = fail Code.resolver_servfail [] (
    lit "resolver returned SERVFAIL: "
    ∷ first_non_empty (rep.dnssec.ede ∷ rep.dnssec.detail ∷ [])
    ∷ [])
state_findings rep DnssecState.island =
    warn Code.dnssec_dnskey_no_ds [] (lit "DNSSEC: " ∷ rep.dnssec.detail ∷ [])
state_findings rep DnssecState.unknown =
    warn Code.dnssec_unknown [] (lit "DNSSEC state unknown: " ∷ rep.dnssec.detail ∷ [])
state_findings rep DnssecState.insecure =
    if not rep.not_a_zone
    then info Code.dnssec_unsigned [] (lit "the zone is not DNSSEC-signed" ∷ [])
    else []
state_findings rep DnssecState.secure = []
state_findings rep DnssecState.nonexistent = []

unfoldable pub dnssec_findings : Report → List Finding
unfolding state_findings
dnssec_findings rep = state_findings rep rep.dnssec.state

-- `delegationFindings`; `%v` of a list of texts is the texts in brackets.
abbrev listed : List Bytes → Bytes
listed names = concat (lit "[" ∷ join names (lit " ") ∷ lit "]" ∷ [])

unfoldable pub delegated_findings : Report → DelegationStatus → List Finding
delegated_findings rep DelegationStatus.mismatch = fail Code.delegation_mismatch [] (
    lit "NS delegation mismatch: parent-only "
    ∷ listed rep.delegation.parent_only
    ∷ lit ", child-only "
    ∷ listed rep.delegation.child_only
    ∷ [])
delegated_findings rep DelegationStatus.not_delegated =
    if not (apex_absent rep.dns.apex)
    then fail Code.not_delegated [] (
        lit "domain is not delegated by its parent zone ("
        ∷ rep.delegation.parent_server
        ∷ lit ")"
        ∷ [])
    else []
delegated_findings rep DelegationStatus.no_child_answer =
    if is_nxrrset (get rep.dns.apex (lit "NS")).status
    then fail Code.delegation_nodata [] (
        lit
          "delegated NS servers answered with no NS records (NODATA): the zone has no apex NS RRset"
        ∷ [])
    else fail Code.delegation_no_answer [] (
        lit "delegated NS servers did not answer the NS query: "
        ∷ first_non_empty (rep.delegation.error ∷ lit "no response" ∷ [])
        ∷ [])
delegated_findings rep DelegationStatus.child_no_ns =
    fail Code.delegation_lame [] (lit "lame delegation: " ∷ rep.delegation.error ∷ [])
delegated_findings rep DelegationStatus.error =
    fail Code.delegation_trace_failed []
      (lit "delegation trace failed: " ∷ rep.delegation.error ∷ [])
delegated_findings rep _ = []

unfoldable pub delegation_findings : Report → List Finding
unfolding delegated_findings
delegation_findings rep = delegated_findings rep rep.delegation.status

-- `zoneUnreachable`
unfoldable pub zone_unreachable : Report → Bool
zone_unreachable rep =
    is_nil rep.reserved_name
    && not rep.not_a_zone
    && delegation_silent rep.delegation (get rep.dns.apex (lit "NS"))
    && no_server_answers rep.nameservers

-- `zoneValidationBroken`: a bogus or SERVFAIL verdict, which explains every failed lookup.
unfoldable pub explains_failures : DnssecState → Bool
explains_failures DnssecState.bogus = true
explains_failures DnssecState.servfail = true
explains_failures _ = false

unfoldable pub zone_validation_broken : Report → Bool
zone_validation_broken rep = explains_failures rep.dnssec.state
