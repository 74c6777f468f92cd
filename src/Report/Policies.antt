-- ===== src/Report/Policies.antt =====
-- report.go: the findings on CAA, TLSA, HSTS preloading, reserved addresses and wildcards, and
-- `headerRequired` of preloadlist.go.
use domaintest.Prelude.{
  ltb, if◌then◌else◌, is_nil, first, ℤ_ltb, Bool, true, false, not, ◌&&◌, ◌||◌, Option, none, some,
  List, [], ◌∷◌, ◌++◌, pos,
}
use domaintest.Text.Numbers.{itoa}
use domaintest.Text.{Bytes, lit, has_prefix, concat}
use domaintest.Codes.{Code}
use domaintest.Findings.{Finding, fail, warn, info}
use domaintest.Report.{TlsaState, Report, Preload, TlsaReport, is_preloaded}
use domaintest.Findings.Mail.{each}
use domaintest.Zone.{SuffixList, registrable_domain}
use domaintest.Wildcard.{WildcardReport}
use domaintest.Caa.{CaaReport, CaaVerdict}
use domaintest.Web.{
  AddrWeb, HostWeb, HttpResult, Hsts, is_known_false, is_true, web_addrs, is_redirect_status,
}

module _ (psl : SuffixList) where
  -- `wildcardFindings`
  unfoldable pub www_wildcard : Bytes → WildcardReport → List Finding
  www_wildcard domain w =
      if w.www_via_wildcard && registrable_domain psl domain
      then info Code.www_wildcard (lit "www")
          (lit "www is answered by a wildcard record, not a real host" ∷ [])
      else []

  unfoldable pub wildcard_findings : Bytes → Option WildcardReport → List Finding
  unfolding www_wildcard
  wildcard_findings domain none = []
  wildcard_findings domain (some w) = www_wildcard domain w

-- `reservedFindings`
unfoldable pub reserved_findings : List Bytes → List Finding
reserved_findings lines =
    each (λ r. fail Code.reserved_address [] (lit "reserved address published in DNS: " ∷ r ∷ []))
      lines

-- `caaFindings`
module _ (quoted : Bytes → Bytes) where
  unfoldable pub denied_issuer : Bytes → CaaVerdict → List Finding
  denied_issuer label v =
      if is_known_false v.permitted
      then fail Code.caa_issuer_denied label
          (label ∷ lit ": CAA records do not permit the certificate issuer " ∷ quoted v.issuer ∷ [])
      else []

  unfoldable pub denied_www : Option CaaVerdict → List Finding
  unfolding denied_issuer
  denied_www none = []
  denied_www (some v) = denied_issuer (lit "www") v

  unfoldable pub caa_findings : Option CaaReport → List Finding
  unfolding denied_issuer denied_www
  caa_findings none = []
  caa_findings (some c) =
      (if c.absent
        then info Code.caa_absent []
            (lit "no CAA records: any certificate authority may issue for the domain" ∷ [])
        else [])
      ++ (denied_issuer (lit "apex") c.apex ++ denied_www c.www)

-- `tlsaFindings`
unfoldable pub unsigned_zone : Bool → List Finding
unsigned_zone signed =
    if not signed
    then info Code.tlsa_unsigned_zone []
        (lit "TLSA records are published in an unsigned zone (DANE clients ignore them)" ∷ [])
    else []

unfoldable pub by_result : TlsaState → Bool → List Finding
by_result TlsaState.no_record signed = []
by_result TlsaState.unknown signed = []
by_result TlsaState.match signed = unsigned_zone signed
by_result TlsaState.unverified signed = unsigned_zone signed
by_result TlsaState.mismatch signed =
    unsigned_zone signed
    ++ fail Code.tlsa_mismatch []
        (lit "no TLSA record matches the certificate served (DANE validation fails)" ∷ [])

unfoldable pub tlsa_findings : Option TlsaReport → List Finding
unfolding by_result unsigned_zone
tlsa_findings none = []
tlsa_findings (some t) = by_result t.result t.signed

-- `preloadCovers`
unfoldable pub preload_covers : Report → Bool × Bool
preload_covers rep = if not (is_preloaded rep.hsts_preload) then (false, false) else (
  true,
  not (is_nil rep.hsts_preload_covered_by) || is_true rep.hsts_preload_include_subdomains,
)

-- `servedHSTS` and `firstHTTPSResponse`
unfoldable pub first_hsts : List AddrWeb → Option Hsts
first_hsts [] = none
first_hsts (a ∷ rest) = elim a.https_res [
  | none ↦ first_hsts rest
  | some r ↦ elim r.hsts [ none ↦ first_hsts rest | some h ↦ some h ]
]

abbrev pub served_hsts : Option HostWeb → Option Hsts
served_hsts h = first_hsts (web_addrs h)

unfoldable pub first_response : List AddrWeb → Option HttpResult
first_response [] = none
first_response (a ∷ rest) = elim a.https_res [
  | none ↦ first_response rest
  | some r ↦ let later = first_response rest in if ltb 0 r.status then some r else later
]

abbrev pub first_https_response : Option HostWeb → Option HttpResult
first_https_response h = first_response (web_addrs h)

-- `meetsPreload`, on a header that is there.
unfoldable pub meets_preload : Hsts → Bool
meets_preload h = h.preload && h.include_subdomains && not (ℤ_ltb h.max_age (pos 31536000))

-- `headerRequired`
unfoldable pub header_required : Bytes → Bool
header_required policy = is_nil policy || has_prefix (lit "bulk-") policy

-- `responseScope`
unfoldable pub response_scope : Bytes → HttpResult → Bytes
response_scope domain r =
    if is_redirect_status r.status
    then concat (
        lit "https://"
        ∷ domain
        ∷ lit "/ answered with a "
        ∷ itoa r.status
        ∷ lit
            " redirect; HSTS is per-host, so a header served by the redirect target does not count"
        ∷ [])
    else concat (lit "https://" ∷ domain ∷ lit "/ answered " ∷ itoa r.status ∷ [])

-- `preloadedFindings`
unfoldable pub header_findings : Bytes → Option Hsts → Option HttpResult → List Finding
header_findings domain none none = []
header_findings domain none (some first) = warn Code.hsts_preload_header_missing (lit "apex") (
    lit "domain is on the HSTS preload list but serves no HSTS header on this response ("
    ∷ response_scope domain first
    ∷ lit ")"
    ∷ [])
header_findings domain (some h) first =
    if not (meets_preload h)
    then warn Code.hsts_preload_header_weak (lit "apex") (
        lit
          "domain is on the HSTS preload list but the served header does not meet the preload requirements (max-age >= 1 year, includeSubDomains, preload)"
        ∷ [])
    else []

unfoldable pub preloaded_findings : Report → Option Hsts → List Finding
unfolding header_findings
preloaded_findings rep h =
    if not (header_required rep.hsts_preload_policy) || not (is_nil rep.hsts_preload_covered_by)
    then []
    else header_findings rep.domain h (first_https_response rep.web.apex)

-- `preloadFindings`
unfoldable pub unmet_directive : Option Hsts → List Finding
unmet_directive none = []
unmet_directive (some h) =
    if h.preload && not (meets_preload h)
    then info Code.hsts_preload_directive_unmet (lit "apex") (
        lit
          "HSTS header carries the preload directive but does not meet the preload requirements (max-age >= 1 year, includeSubDomains)"
        ∷ [])
    else []

unfoldable pub by_preload : Report → Option Hsts → Preload → List Finding
by_preload rep h Preload.preloaded = preloaded_findings rep h
by_preload rep h Preload.absent = unmet_directive h
by_preload rep h Preload.unknown =
    info Code.hsts_preload_unknown []
      (lit "HSTS preload list could not be consulted: " ∷ rep.hsts_preload_error ∷ [])
by_preload rep h Preload.unset = []

unfoldable pub preload_findings : Report → List Finding
unfolding by_preload unmet_directive
preload_findings rep = by_preload rep (served_hsts rep.web.apex) rep.hsts_preload
