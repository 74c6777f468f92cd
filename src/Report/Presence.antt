-- ===== src/Report/Presence.antt =====
-- report.go: the findings on the records of the apex and of www.
use domaintest.Prelude.{
  if◌then◌else◌, is_none, is_nil, any, Bool, true, false, not, ◌&&◌, ◌||◌, Option, none, some, List,
  [], ◌∷◌, ◌++◌,
}
use domaintest.Dnssec.{name_does_not_exist, apex_types}
use domaintest.Text.{Bytes, lit, ◌=?◌, concat}
use domaintest.Codes.{Code}
use domaintest.Findings.{Finding, fail, warn, info}
use domaintest.Report.{Report}
use domaintest.Trace.{DelegationStatus}
use domaintest.Records.{
  Lookup, LookupMap, get, is_timeout, answered, has_records, is_null_mx, is_failure, is_nxdomain,
}
use domaintest.Findings.Mail.{each}
use domaintest.Zone.{SuffixList, registrable_domain}
use domaintest.Report.Zone.{explains_failures, no_records_at_all}
use domaintest.Spf.Terms.{is_spf_record}

-- `wwwTypes`
abbrev pub www_types : List Bytes
www_types = lit "A" ∷ lit "AAAA" ∷ []

-- `lookupFindings`
unfoldable pub lookup_findings : Bytes → Bytes → Lookup → Bool → List Finding
lookup_findings label qtype l folded =
    if is_timeout l.status
    then fail Code.lookup_timeout label (label ∷ lit " " ∷ qtype ∷ lit " lookup timed out" ∷ [])
    else if is_failure l.status && not folded
    then fail Code.lookup_failed label
        (label ∷ lit " " ∷ qtype ∷ lit " lookup failed: " ∷ l.error ∷ [])
    else []

-- `nxdomainCode`
unfoldable pub nxdomain_code : Bytes → Code
nxdomain_code label = if label =? lit "www" then Code.www_nxdomain else Code.reserved_nxdomain

-- `noAddress`
unfoldable pub no_address : Bytes → List Finding
no_address label =
    if label =? lit "www"
    then info Code.www_no_address label (label ∷ lit " has no A or AAAA records" ∷ [])
    else warn Code.apex_no_address label (label ∷ lit " has no A or AAAA records" ∷ [])

-- `addressWarnings`
unfoldable pub address_warnings : Bytes → Lookup → Lookup → List Finding
address_warnings label a aaaa =
    if not (answered a) || not (answered aaaa)
    then []
    else if is_nxdomain a.status
    then info (nxdomain_code label) label (label ∷ lit " name does not exist" ∷ [])
    else if not (has_records a) && not (has_records aaaa)
    then no_address label
    else if not (has_records aaaa)
    then info Code.aaaa_absent label (label ∷ lit " has no AAAA record" ∷ [])
    else []

-- `hasSPF`
unfoldable pub has_spf : List Bytes → Bool
has_spf txt = any is_spf_record txt

-- `apexMissing`: the finding, if the apex is missing.
unfoldable pub apex_missing : Report → Option (List Finding)
apex_missing rep =
    if name_does_not_exist rep.dns.apex
    then some (
        fail Code.apex_nxdomain (lit "apex")
          (lit "apex " ∷ rep.domain ∷ lit " does not exist (NXDOMAIN)" ∷ []))
    else if no_records_at_all rep.dns.apex
    then some (
        fail Code.apex_empty (lit "apex")
          (lit "apex " ∷ rep.domain ∷ lit " has no records of any type" ∷ []))
    else none

-- `enclosing` and `zoneKindFindings`
unfoldable pub enclosing_text : Bytes → Bytes
enclosing_text zone =
    if is_nil zone then [] else concat (lit " (inside zone " ∷ zone ∷ lit ")" ∷ [])

says_no_ns : DelegationStatus → Bool
says_no_ns DelegationStatus.child_no_ns = true
says_no_ns DelegationStatus.no_child_answer = true
says_no_ns _ = false

unfoldable pub zone_kind_findings : Report → List Finding
unfolding says_no_ns
zone_kind_findings rep =
    let ns = get rep.dns.apex (lit "NS") in
    if rep.not_a_zone
    then info Code.not_a_zone [] (
        rep.domain
        ∷ lit " is not a zone apex"
        ∷ enclosing_text rep.enclosing_zone
        ∷ lit ": delegation and DNSSEC zone checks skipped"
        ∷ [])
    else if says_no_ns rep.delegation.status
    then []
    else if not (has_records ns) && answered ns
    then fail Code.ns_absent (lit "apex") (lit "apex has no NS records" ∷ [])
    else []

-- The part of `presenceWarnings` for a report with a mail section.
unfoldable pub mail_presence : LookupMap → List Finding
mail_presence apex =
    let mx = get apex (lit "MX") in
    let txt = get apex (lit "TXT") in
    (if is_null_mx mx
      then info Code.mx_null (lit "apex")
          (lit "apex publishes a null MX (RFC 7505): accepts no mail" ∷ [])
      else if answered mx && not (has_records mx)
      then info Code.mx_absent (lit "apex") (lit "apex has no MX records" ∷ [])
      else [])
    ++ (if answered txt && not (has_spf txt.records)
        then warn Code.spf_absent [] (lit "no SPF (v=spf1) record in apex TXT" ∷ [])
        else [])

module _ (psl : SuffixList) where
  -- `presenceWarnings`
  unfoldable pub presence_warnings : Report → List Finding
  unfolding mail_presence
  presence_warnings rep =
      let www = rep.dns.www in
      address_warnings (lit "apex") (get rep.dns.apex (lit "A")) (get rep.dns.apex (lit "AAAA"))
      ++ ((if registrable_domain psl rep.domain
            then address_warnings (lit "www") (get www (lit "A")) (get www (lit "AAAA"))
            else [])
          ++ (if is_none rep.mail then [] else mail_presence rep.dns.apex))

  -- `dnsFindings`
  unfoldable pub present_findings : Report → List Finding
  present_findings rep =
      let folded = explains_failures rep.dnssec.state || not (is_nil rep.reserved_name) in
      each (λ t. lookup_findings (lit "apex") t (get rep.dns.apex t) folded) apex_types
      ++ (each (λ t. lookup_findings (lit "www") t (get rep.dns.www t) folded) www_types
          ++ (zone_kind_findings rep ++ presence_warnings rep))

  unfoldable pub or_present : Report → Option (List Finding) → List Finding
  unfolding present_findings
  or_present rep none = present_findings rep
  or_present rep (some missing) = missing

  unfoldable pub dns_findings : Report → List Finding
  unfolding or_present present_findings
  dns_findings rep =
      if is_nil rep.reserved_name then or_present rep (apex_missing rep) else present_findings rep
