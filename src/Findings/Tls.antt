-- ===== src/Findings/Tls.antt =====
-- report.go: the findings on certificates and TLS versions.
use domaintest.Prelude.{
  ltb, ◌==◌, if◌then◌else◌, length, is_nil, any, first, ℤ, is_negative, ℤ_ltb, ℕ, ◌+◌, Bool, true,
  false, not, ◌&&◌, ◌||◌, Option, none, some, List, [], ◌∷◌, ◌++◌, map, pos, negsuc,
}
use domaintest.Text.Numbers.{itoa, itoa_int}
use domaintest.Text.{Bytes, ◌=?◌, lit, concat, join}
use domaintest.Codes.{Code}
use domaintest.Findings.{Finding, fail, warn, info}
use domaintest.Web.{
  AddrWeb, HostWeb, TlsResult, CertInfo, Chain, is_valid, is_expired, is_handshake_failed,
  chain_text, web_addrs, is_true, is_known_false,
}

-- `withTLS`: the TLS results of the addresses that have one. Nothing else of them is read.
unfoldable pub with_tls : List AddrWeb → List TlsResult
with_tls [] = []
with_tls (a ∷ rest) = elim a.tls [ none ↦ with_tls rest | some t ↦ t ∷ with_tls rest ]

-- `strings.ReplaceAll(s, "_", " ")`
unfoldable pub spaced : Bytes → Bytes
spaced s = map (λ c. if c == b'_' then b' ' else c) s

-- `chainLabel`
unfoldable pub chain_label : TlsResult → Bytes
chain_label t =
    if ltb (length t.problems) 2
    then spaced (chain_text t.chain)
    else join (map spaced t.problems) (lit " and ")

-- The tally of `chainFindings` for one cause.
pub record ChainTally : Type 0 where
  pub key : Bytes
  pub chain : Chain
  pub label : Bytes
  pub detail : Bytes
  pub count : ℕ

unfoldable pub cause_key : TlsResult → Bytes
cause_key t = chain_text t.chain ++ (0 ∷ (t.error ++ (0 ∷ join t.problems (lit ","))))

unfoldable pub count_cause : TlsResult → List ChainTally → List ChainTally
count_cause t [] =
    record {
      key = cause_key t;
      chain = t.chain;
      label = chain_label t;
      detail = t.error;
      count = 1;
    }
    ∷ []
count_cause t (c ∷ cs) =
    let later = count_cause t cs in
    if c.key =? cause_key t then record c { count = c.count + 1 } ∷ cs else c ∷ later

unfoldable pub causes_from : List ChainTally → List TlsResult → List ChainTally
causes_from cs [] = cs
causes_from cs (t ∷ rest) = causes_from (if is_valid t.chain then cs else count_cause t cs) rest

-- `chainFindings`
unfoldable pub chain_failures : Bytes → ℕ → List ChainTally → List Finding
chain_failures label total [] = []
chain_failures label total (c ∷ cs) =
    fail (Code.cert_chain c.chain) label (
      label
      ∷ lit ": certificate "
      ∷ spaced c.label
      ∷ lit " on "
      ∷ itoa c.count
      ∷ lit " of "
      ∷ itoa total
      ∷ lit " addresses: "
      ∷ c.detail
      ∷ [])
    ++ chain_failures label total cs

unfoldable pub chain_findings : Bytes → List TlsResult → List Finding
unfolding chain_failures
chain_findings label results = chain_failures label (length results) (causes_from [] results)

-- `expiryFindings`: the loop, and what it says of the soonest day.
sooner : ℤ → Chain → Option CertInfo → ℤ
sooner soonest chain none = soonest
sooner soonest chain (some c) =
    if is_expired chain
    then soonest
    else if is_negative soonest || ℤ_ltb c.days_remaining soonest
    then c.days_remaining
    else soonest

unfoldable pub soonest_from : ℤ → List TlsResult → ℤ
unfolding sooner
soonest_from soonest [] = soonest
soonest_from soonest (t ∷ rest) = soonest_from (sooner soonest t.chain t.cert) rest

unfoldable pub expiry_findings : Bytes → List TlsResult → List Finding
expiry_findings label results =
    let soonest = soonest_from (negsuc 0) results in
    if is_negative soonest || not (ℤ_ltb soonest (pos 30))
    then []
    else if ℤ_ltb soonest (pos 7)
    then warn Code.cert_expiry_urgent label
        (label ∷ lit ": certificate expires in " ∷ itoa_int soonest ∷ lit " days (urgent)" ∷ [])
    else info Code.cert_expiry_soon label
        (label ∷ lit ": certificate expires in " ∷ itoa_int soonest ∷ lit " days" ∷ [])

-- `hasValidCert`
unfoldable pub has_valid_cert : Option HostWeb → Bool
has_valid_cert h = any (λ t. is_valid t.chain) (with_tls (web_addrs h))

-- `coverageFindings`
abbrev covers_sibling : Bytes → CertInfo → Bool
covers_sibling label c = if label =? lit "www" then c.covers_apex else c.covers_www

abbrev uncovered : Bytes → Chain → Option CertInfo → Bool
uncovered label chain none = false
uncovered label chain (some c) = is_valid chain && not (covers_sibling label c)

unfoldable pub coverage_findings : Bytes → List TlsResult → Option HostWeb → List Finding
coverage_findings label results sibling =
    if is_nil (web_addrs sibling) || has_valid_cert sibling
    then []
    else if any (λ t. uncovered label t.chain t.cert) results
    then warn Code.cert_sibling_uncovered label (
        label
        ∷ lit ": certificate does not cover "
        ∷ (if label =? lit "www" then lit "the apex" else lit "www")
        ∷ lit ", which resolves but has no valid certificate"
        ∷ [])
    else []

-- The loop of `versionFindings`.
pub record TlsVersions : Type 0 where
  pub old10 : ℕ
  pub old11 : ℕ
  pub no13 : ℕ
  pub total : ℕ

abbrev one_if : Bool → ℕ
one_if true = 1
one_if false = 0

unfoldable pub tls_versions : List TlsResult → TlsVersions
tls_versions [] = record { old10 = 0; old11 = 0; no13 = 0; total = 0 }
tls_versions (t ∷ rest) =
    let v = tls_versions rest in
    if is_handshake_failed t.chain then v else record {
      old10 = one_if (is_true t.tls10) + v.old10;
      old11 = one_if (is_true t.tls11) + v.old11;
      no13 = one_if (not (is_nil t.version) && not (t.version =? lit "TLS 1.3")) + v.no13;
      total = 1 + v.total;
    }

-- `versionFindings`
unfoldable pub version_findings : Bytes → List TlsResult → List Finding
version_findings label results =
    let v = tls_versions results in
    (if ltb 0 (v.old10 + v.old11)
      then info Code.tls_legacy_versions label (
          label
          ∷ lit ": TLS 1.0/1.1 still accepted on "
          ∷ itoa (if ltb v.old11 v.old10 then v.old10 else v.old11)
          ∷ lit " of "
          ∷ itoa v.total
          ∷ lit " addresses"
          ∷ [])
      else [])
    ++ (if ltb 0 v.no13
        then info Code.tls13_absent label (
            label
            ∷ lit ": no TLS 1.3 on "
            ∷ itoa v.no13
            ∷ lit " of "
            ∷ itoa v.total
            ∷ lit " addresses"
            ∷ [])
        else [])

-- `certProfilesDiffer`: the text of a profile, and the loop with the profile before.
bool_text : Bool → Bytes
bool_text true = lit "true"
bool_text false = lit "false"

unfoldable pub profile : Chain → CertInfo → Bytes
unfolding bool_text
profile chain c =
    concat
      (chain_text chain ∷ lit "/" ∷ bool_text c.covers_apex ∷ lit "/" ∷ bool_text c.covers_www ∷ [])

unfoldable pub profiles_differ_from : Bytes → List TlsResult → Bool
profiles_differ_from first [] = false
profiles_differ_from first (t ∷ rest) = elim t.cert [
  | none ↦ profiles_differ_from first rest
  | some c ↦
      let later = profiles_differ_from (profile t.chain c) rest in
      if not (is_nil first) && not (profile t.chain c =? first) then true else later
]

unfoldable pub cert_profiles_differ : List TlsResult → Bool
cert_profiles_differ results = profiles_differ_from [] results

-- `tlsFindings`, on a host that has addresses with TLS.
abbrev cert_consistent_of : Option HostWeb → Option Bool
cert_consistent_of none = none
cert_consistent_of (some h) = h.cert_consistent

unfoldable pub judge_results : Bytes → Option Bool → Option HostWeb → List TlsResult → List Finding
judge_results label consistent sibling results =
    chain_findings label results
    ++ (expiry_findings label results
        ++ (coverage_findings label results sibling
            ++ (version_findings label results
                ++ (if is_known_false consistent && cert_profiles_differ results
                    then warn Code.cert_mismatch_between_addresses label (
                        label
                        ∷ lit
                            ": addresses serve certificates that differ in validity or in the names they cover"
                        ∷ [])
                    else []))))

unfoldable pub tls_findings : Bytes → Option HostWeb → Option HostWeb → List Finding
tls_findings label h sibling =
    let results = with_tls (web_addrs h) in
    if is_nil results then [] else judge_results label (cert_consistent_of h) sibling results
