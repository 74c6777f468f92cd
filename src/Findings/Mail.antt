-- ===== src/Findings/Mail.antt =====
-- report.go: the findings on mail.
use domaintest.Prelude.{
  ltb, if◌then◌else◌, is_nil, ℤ_ltb, Bool, not, ◌&&◌, Option, none, some, List, [], ◌∷◌, ◌++◌, pos,
}
use domaintest.Text.Numbers.{itoa_int, itoa}
use domaintest.Text.{Bytes, lit, ◌=?◌, has_prefix, has_infix, concat}
use domaintest.Codes.{Code, Severity}
use domaintest.Mail.{DkimKey, DkimResult, MtaSts, MailReport}
use domaintest.Mail.Mx.{MxCheck, mx_unresolved_problem}
use domaintest.Mail.Policy.{Dmarc}
use domaintest.Findings.{Finding, fail, warn, info}

-- `spfClass`
pub record SpfClass : Type 0 where
  pub prefix : Bytes
  pub substr : Bytes
  pub code : Code
  pub severity : Severity

abbrev class_of : Bytes → Bytes → Code → Severity → SpfClass
class_of p s c v = record { prefix = p; substr = s; code = c; severity = v }

-- `spfClasses`
unfoldable pub spf_classes : List SpfClass
spf_classes =
    class_of (lit "multiple SPF records") [] Code.spf_multiple Severity.fails
    ∷ class_of [] (lit "DNS lookups exceed the limit") Code.spf_lookup_limit Severity.fails
    ∷ class_of [] (lit "void lookups exceed the limit") Code.spf_void_limit Severity.warns
    ∷ class_of (lit "record has no all mechanism") [] Code.spf_no_all Severity.warns
    ∷ class_of (lit "ptr mechanism is deprecated") [] Code.spf_ptr_deprecated Severity.warns
    ∷ class_of (lit "unknown mechanism") [] Code.spf_unknown_mechanism Severity.fails
    ∷ class_of (lit "+all") [] Code.spf_pass_all Severity.fails
    ∷ class_of (lit "?all") [] Code.spf_neutral_all Severity.warns
    ∷ class_of (lit "apex TXT answer is") (lit ", over the ") Code.spf_txt_over_udp_limit
        Severity.informs
    ∷ class_of (lit "apex TXT answer is") [] Code.spf_txt_near_udp_limit Severity.informs
    ∷ class_of (lit "include:") (lit " TXT answer is ") Code.spf_include_txt_over_udp_limit
        Severity.informs
    ∷ class_of (lit "include:") (lit " is not a valid domain name") Code.spf_include_invalid
        Severity.warns
    ∷ class_of (lit "include:") (lit " has no SPF record") Code.spf_include_missing Severity.warns
    ∷ class_of (lit "include:") (lit " could not be checked") Code.spf_include_unchecked
        Severity.warns
    ∷ class_of (lit "include loop ") [] Code.spf_include_loop Severity.fails
    ∷ class_of [] (lit " is already covered by ") Code.spf_redundant_ip Severity.informs
    ∷ []

-- `spfProblemClass`: the first class that matches.
abbrev pub matches : Bytes → SpfClass → Bool
matches p c = has_prefix c.prefix p && has_infix c.substr p

unfoldable pub class_in : List SpfClass → Bytes → Code × Severity
class_in [] p =
    if has_infix (lit "permerror") p
    then (Code.spf_invalid, Severity.fails)
    else (Code.spf_problem, Severity.warns)
class_in (c ∷ cs) p = let rest = class_in cs p in if matches p c then (c.code, c.severity) else rest

unfoldable pub spf_problem_class : Bytes → Code × Severity
unfolding class_in
spf_problem_class p = class_in spf_classes p

-- A finding of a code and a severity that were looked up.
abbrev pub classed : Code × Severity → Bytes → List Bytes → List Finding
classed (c, v) host parts =
    record { code = c; severity = v; host = host; message = concat parts } ∷ []

-- `spfFindings`
unfoldable pub spf_findings : List Bytes → List Finding
spf_findings [] = []
spf_findings (p ∷ ps) = classed (spf_problem_class p) [] (lit "SPF: " ∷ p ∷ []) ++ spf_findings ps

-- `mxProblemCode`
unfoldable pub mx_problem_code : Bytes → Code
mx_problem_code p =
    if has_prefix (lit "null MX mixed") p
    then Code.mx_null_mixed
    else if has_prefix (lit "MX target is not a valid hostname") p
    then Code.mx_target_invalid
    else if has_prefix (lit "MX target is an IP literal") p
    then Code.mx_target_ip_literal
    else if has_prefix (lit "MX target is a CNAME") p
    then Code.mx_target_cname
    else if p =? lit "MX target does not exist"
    then Code.mx_target_nxdomain
    else if p =? lit "MX target has no address"
    then Code.mx_target_no_address
    else Code.mx_invalid

-- `mxFindings`
unfoldable pub mx_problem : MxCheck → Bytes → List Finding
mx_problem c p =
    if c.unresolved && p =? mx_unresolved_problem
    then warn Code.mx_target_unresolved c.host (lit "MX " ∷ c.host ∷ lit ": " ∷ p ∷ [])
    else fail (mx_problem_code p) c.host (lit "MX " ∷ c.host ∷ lit ": " ∷ p ∷ [])

unfoldable pub mx_problems : MxCheck → List Bytes → List Finding
mx_problems c [] = []
mx_problems c (p ∷ ps) = mx_problem c p ++ mx_problems c ps

unfoldable pub mx_findings : List MxCheck → List Finding
unfolding mx_problem mx_problems
mx_findings [] = []
mx_findings (c ∷ cs) = mx_problems c c.problems ++ mx_findings cs

-- `dmarcProblemClass`
unfoldable pub dmarc_problem_class : Bytes → Code × Severity
dmarc_problem_class p =
    if has_prefix (lit "multiple DMARC records") p
    then (Code.dmarc_multiple, Severity.fails)
    else if p =? lit "missing p= tag"
    then (Code.dmarc_policy_missing, Severity.fails)
    else if has_prefix (lit "unknown policy") p
    then (Code.dmarc_policy_unknown, Severity.fails)
    else if has_prefix (lit "unknown subdomain policy") p
    then (Code.dmarc_subdomain_policy_unknown, Severity.warns)
    else if has_prefix (lit "invalid pct=") p
    then (Code.dmarc_pct_invalid, Severity.warns)
    else (Code.dmarc_invalid, Severity.fails)

-- `dmarcFindings`
unfoldable pub dmarc_problems : List Bytes → List Finding
dmarc_problems [] = []
dmarc_problems (p ∷ ps) =
    classed (dmarc_problem_class p) [] (lit "DMARC: " ∷ p ∷ []) ++ dmarc_problems ps

unfoldable pub dmarc_pct : Dmarc → List Finding
dmarc_pct d =
    if ℤ_ltb d.pct (pos 100)
    then info Code.dmarc_partial_pct [] (
        lit "DMARC applies to only "
        ∷ itoa_int d.pct
        ∷ lit "% of mail (pct="
        ∷ itoa_int d.pct
        ∷ lit ")"
        ∷ [])
    else []

unfoldable pub dmarc_findings : Dmarc → List Finding
unfolding dmarc_problems dmarc_pct
dmarc_findings d =
    let rest = dmarc_pct d ++ dmarc_problems d.problems in
    if d.unresolved
    then warn Code.dmarc_unknown []
        (lit "the DMARC lookup did not complete, so whether a record exists is unknown" ∷ [])
      ++ rest
    else if not d.present
    then warn Code.dmarc_absent [] (lit "no DMARC record" ∷ [])
    else if d.policy =? lit "none"
    then info Code.dmarc_policy_none [] (lit "DMARC policy is p=none (monitor only)" ∷ []) ++ rest
    else rest

-- `dkimKeyFindings`
unfoldable pub dkim_key : DkimKey → List Finding
dkim_key k =
    if not (is_nil k.error)
    then warn Code.dkim_key_invalid [] (lit "DKIM selector " ∷ k.selector ∷ lit ": " ∷ k.error ∷ [])
    else if k.key_type =? lit "rsa" && ltb k.bits 1024
    then fail Code.dkim_key_too_short [] (
        lit "DKIM selector "
        ∷ k.selector
        ∷ lit ": RSA key of "
        ∷ itoa k.bits
        ∷ lit " bits, which verifiers reject (RFC 8301 §3.2)"
        ∷ [])
    else if k.key_type =? lit "rsa" && ltb k.bits 2048
    then info Code.dkim_key_weak [] (
        lit "DKIM selector "
        ∷ k.selector
        ∷ lit ": RSA key of "
        ∷ itoa k.bits
        ∷ lit " bits, under the 2048 RFC 8301 recommends"
        ∷ [])
    else []

unfoldable pub dkim_keys : List DkimKey → List Finding
unfolding dkim_key
dkim_keys [] = []
dkim_keys (k ∷ ks) = dkim_key k ++ dkim_keys ks

-- A finding for each text of a list.
unfoldable pub each : (Bytes → List Finding) → List Bytes → List Finding
each f [] = []
each f (x ∷ xs) = f x ++ each f xs

unfoldable pub dkim_key_findings : DkimResult → List Finding
unfolding dkim_keys
dkim_key_findings d =
    dkim_keys d.keys
    ++ each
        (λ sel.
          info Code.dkim_selector_dangling []
            (lit "DKIM selector " ∷ sel ∷ lit " is a CNAME to a name that does not exist" ∷ []))
        d.dangling

-- `mtaSTSFindings`
unfoldable pub sts_findings : MtaSts → List Finding
sts_findings m =
    let enforce = m.mode =? lit "enforce" in
    let failed = lit "MTA-STS: " ∷ m.error ∷ [] in
    let uncovered = lit "MTA-STS policy mx patterns do not cover every MX host" ∷ [] in
    if not m.has_record
    then []
    else if not (is_nil m.error)
    then (if enforce
        then fail Code.mta_sts_enforce_failed [] failed
        else warn Code.mta_sts_failed [] failed)
    else if not m.mx_covered && not (m.mode =? lit "none")
    then (if enforce
        then fail Code.mta_sts_enforce_mx_uncovered [] uncovered
        else warn Code.mta_sts_mx_uncovered [] uncovered)
    else []

unfoldable pub mta_sts_findings : Option MtaSts → List Finding
unfolding sts_findings
mta_sts_findings none = []
mta_sts_findings (some m) = sts_findings m

-- `mailAbsenceFindings`
unfoldable pub mail_absence_findings : MailReport → List Finding
mail_absence_findings m =
    (if m.mta_sts_absent
      then info Code.mta_sts_absent [] (lit "no MTA-STS record (_mta-sts)" ∷ [])
      else [])
    ++ (if m.tls_rpt_absent
        then info Code.tls_rpt_absent [] (lit "no TLS-RPT record (_smtp._tls)" ∷ [])
        else [])

-- `mailFindings`
unfoldable pub mail_findings : Option MailReport → Bool → List Finding
mail_findings none zone_broken = []
mail_findings (some m) zone_broken =
    (if zone_broken && m.dmarc.unresolved then [] else dmarc_findings m.dmarc)
    ++ (spf_findings m.spf.problems
        ++ (mx_findings m.mx
            ++ ((if m.dkim.wildcard
                  then warn Code.dkim_wildcard [] (
                      lit
                        "the zone answers every _domainkey selector (wildcard), so no selector could be verified"
                      ∷ [])
                  else [])
                ++ (dkim_key_findings m.dkim
                    ++ (each
                          (λ sel. warn Code.dkim_selector_revoked [] (
                            lit "DKIM selector "
                            ∷ sel
                            ∷ lit " publishes a revoked (empty) key"
                            ∷ []))
                          m.dkim.revoked
                        ++ (mta_sts_findings m.mta_sts ++ mail_absence_findings m))))))
