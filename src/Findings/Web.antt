-- ===== src/Findings/Web.antt =====
-- report.go: the findings on ports, HTTP versions and QUIC.
use domaintest.Prelude.{
  ltb, ◌==◌, if◌then◌else◌, length, is_nil, any, ℕ, ◌+◌, Bool, true, false, not, ◌&&◌, Option, none,
  some, List, [], ◌∷◌, ◌++◌,
}
use domaintest.Text.Numbers.{itoa}
use domaintest.Text.{Bytes, lit, concat, join}
use domaintest.Codes.{Code}
use domaintest.Findings.{Finding, warn, info}
use domaintest.Web.{
  AddrWeb, HostWeb, HttpResult, HttpVersions, QuicResult, PortState, probe_refused, is_skipped,
  is_open, is_true, port_text, web_addrs,
}

-- What HTTP answered on 80.
abbrev answered_http : Option HttpResult → Bool
answered_http none = false
answered_http (some r) = ltb 0 r.status

abbrev http_refused : Option HttpResult → Option ℕ
http_refused none = none
http_refused (some r) = if probe_refused r.status then some r.status else none

-- `port80Failure`
abbrev response_error : Option HttpResult → Bytes
response_error none = lit "no response"
response_error (some r) = if is_nil r.error then lit "no response" else r.error

unfoldable pub port80_failure : AddrWeb → Bytes
port80_failure a = if not (is_open a.http) then port_text a.http else response_error a.http_res

-- The loop of `port80PartialFindings`.
pub record Port80 : Type 0 where
  pub answered : ℕ
  pub total : ℕ
  pub failed : List Bytes

unfoldable pub port80_from : Port80 → List AddrWeb → Port80
port80_from t [] = t
port80_from t (a ∷ rest) =
    let t' = record t { total = t.total + 1 } in
    port80_from
      (if is_skipped a.http
        then t
        else if answered_http a.http_res
        then record t' { answered = t'.answered + 1 }
        else if is_open a.https
        then record t' {
          failed = t'.failed ++ concat (a.ip ∷ lit " " ∷ port80_failure a ∷ []) ∷ [];
        }
        else t')
      rest

-- `port80PartialFindings`
unfoldable pub port80_partial_findings : Bytes → List AddrWeb → List Finding
port80_partial_findings label ips =
    let t = port80_from (record { answered = 0; total = 0; failed = [] }) ips in
    if ltb 0 t.answered && ltb 0 (length t.failed)
    then warn Code.http_port80_partial label (
        label
        ∷ lit ": port 80 failed on "
        ∷ itoa (length t.failed)
        ∷ lit " of "
        ∷ itoa t.total
        ∷ lit " addresses while the others answered: "
        ∷ join t.failed (lit "; ")
        ∷ [])
    else []

-- `listenerFindings`
unfoldable pub without_https : Bytes → AddrWeb → Option ℕ → List Finding
without_https label a (some status) = info Code.https_not_verified label (
    label
    ∷ lit " "
    ∷ a.ip
    ∷ lit ": HTTP on 80 refused the probe (HTTP "
    ∷ itoa status
    ∷ lit ") and HTTPS on 443 did not answer ("
    ∷ port_text a.https
    ∷ lit "), so neither was verified"
    ∷ [])
without_https label a none = warn Code.https_unreachable label (
    label
    ∷ lit " "
    ∷ a.ip
    ∷ lit ": HTTP on 80 answers but HTTPS on 443 does not ("
    ∷ port_text a.https
    ∷ lit ")"
    ∷ [])

unfoldable pub listener_findings : Bytes → AddrWeb → List Finding
unfolding without_https
listener_findings label a =
    if is_skipped a.http && is_skipped a.https
    then info Code.address_not_probed_reserved label
        (label ∷ lit " " ∷ a.ip ∷ lit ": not probed (reserved address)" ∷ [])
    else if not (is_open a.http) && not (is_open a.https)
    then warn Code.web_no_listener label (
        label
        ∷ lit " "
        ∷ a.ip
        ∷ lit ": no listener on 80 or 443 ("
        ∷ port_text a.http
        ∷ lit "/"
        ∷ port_text a.https
        ∷ lit ")"
        ∷ [])
    else if not (is_open a.https)
    then without_https label a (http_refused a.http_res)
    else []

unfoldable pub all_listeners : Bytes → List AddrWeb → List Finding
all_listeners label [] = []
all_listeners label (a ∷ rest) = listener_findings label a ++ all_listeners label rest

-- `versionTally` and its `add`
pub record VersionTally : Type 0 where
  pub yes : ℕ
  pub no : ℕ

unfoldable pub count_version : Option Bool → VersionTally → VersionTally
count_version none v = v
count_version (some true) v = record v { yes = v.yes + 1 }
count_version (some false) v = record v { no = v.no + 1 }

-- `hostVersions`
pub record HostVersions : Type 0 where
  pub h1 : VersionTally
  pub h2 : VersionTally
  pub h3 : VersionTally
  pub advertised : ℕ
  pub unreachable : ℕ

abbrev pub no_versions : HostVersions
no_versions = record {
  h1 = record { yes = 0; no = 0 };
  h2 = record { yes = 0; no = 0 };
  h3 = record { yes = 0; no = 0 };
  advertised = 0;
  unreachable = 0;
}

-- `tallyVersions`
over_tls : PortState → HttpVersions → HostVersions → HostVersions
over_tls https v t =
    if is_open https
    then record t { h1 = count_version v.http1_1 t.h1; h2 = count_version v.http2 t.h2 }
    else t

over_quic : HttpVersions → HostVersions → HostVersions
over_quic v t =
    let t' = record t { h3 = count_version v.http3 t.h3 } in
    if is_true v.h3_advertised
    then record t' {
      advertised = t'.advertised + 1;
      unreachable = if is_true v.http3 then t'.unreachable else t'.unreachable + 1;
    }
    else t'

unfoldable pub count_versions : PortState → Option HttpVersions → HostVersions → HostVersions
unfolding over_tls over_quic
count_versions https none t = t
count_versions https (some v) t = over_quic v (over_tls https v t)

unfoldable pub versions_from : HostVersions → List AddrWeb → HostVersions
versions_from t [] = t
versions_from t (a ∷ rest) = versions_from (count_versions a.https a.http_versions t) rest

abbrev pub tally_versions : List AddrWeb → HostVersions
tally_versions ips = versions_from no_versions ips

-- `httpVersionFindings`
unfoldable pub version_facts : Bytes → HostVersions → List Finding
version_facts label t =
    (if t.h1.yes == 0 && ltb 0 t.h1.no
      then info Code.http1_1_absent label (
          label
          ∷ lit ": no address serves HTTP/1.1 over TLS ("
          ∷ itoa t.h1.no
          ∷ lit " refused it)"
          ∷ [])
      else [])
    ++ ((if t.h2.yes == 0 && ltb 0 t.h2.no
          then info Code.http2_absent label (label ∷ lit ": no address negotiates HTTP/2 (h2)" ∷ [])
          else if ltb 0 t.h2.yes && ltb 0 t.h2.no
          then info Code.http2_partial label (
              label
              ∷ lit ": HTTP/2 (h2) on "
              ∷ itoa t.h2.yes
              ∷ lit " of "
              ∷ itoa (t.h2.yes + t.h2.no)
              ∷ lit " addresses"
              ∷ [])
          else [])
        ++ ((if t.h3.yes == 0 && ltb 0 t.h3.no
              then info Code.http3_absent label (label ∷ lit ": no address serves HTTP/3" ∷ [])
              else [])
            ++ (if ltb 0 t.unreachable
                then warn Code.h3_advertised_unreachable label (
                    label
                    ∷ lit ": Alt-Svc advertises HTTP/3 but QUIC did not answer on "
                    ∷ itoa t.unreachable
                    ∷ lit " of "
                    ∷ itoa t.advertised
                    ∷ lit " advertising addresses"
                    ∷ [])
                else [])))

unfoldable pub http_version_findings : Bytes → List AddrWeb → List Finding
http_version_findings label ips = version_facts label (tally_versions ips)

-- `anyQUIC` and `quicFindings`
abbrev pub quic_supported : Option QuicResult → Bool
quic_supported none = false
quic_supported (some q) = q.supported

abbrev pub quic_missing : Option QuicResult → Bool
quic_missing none = false
quic_missing (some q) = not q.supported

unfoldable pub any_quic : List AddrWeb → Bool
any_quic ips = any (λ a. quic_supported a.quic) ips

unfoldable pub quic_partial : Bytes → List AddrWeb → List Finding
quic_partial label [] = []
quic_partial label (a ∷ rest) =
    (if quic_missing a.quic
      then info Code.quic_partial label (
          label
          ∷ lit " "
          ∷ a.ip
          ∷ lit ": QUIC/h3 works on another probed address of this host but not here"
          ∷ [])
      else [])
    ++ quic_partial label rest

unfoldable pub quic_findings : Bytes → List AddrWeb → List Finding
quic_findings label ips = if not (any_quic ips) then [] else quic_partial label ips

-- `webFindings`
unfoldable pub web_findings : Bytes → Option HostWeb → List Finding
web_findings label h =
    all_listeners label (web_addrs h)
    ++ (quic_findings label (web_addrs h)
        ++ (http_version_findings label (web_addrs h)
            ++ port80_partial_findings label (web_addrs h)))
