-- ===== src/Versions.antt =====
-- httpversions.go: the HTTP versions of one address, from what the probes saw. The handshakes
-- themselves are I/O.
pub mod Silence
use domaintest.Prelude.{
  ltb, ◌==◌, if◌then◌else◌, any, Bool, true, false, ◌&&◌, ◌||◌, Option, none, some, List, [], ◌∷◌,
}
use domaintest.Web.{
  PortState, TlsResult, HttpResult, QuicResult, HttpVersions, is_refused, is_handshake_failed,
  is_known_false,
}
use domaintest.Text.{Bytes, has_infix, cut, split, lit, contains, trim_space, ◌=?◌, has_prefix}

-- What `httpVersionsFor` reads of `addrProbe`.
pub record AddrProbe : Type 0 where
  pub https : PortState
  pub https_res : Option HttpResult
  pub tls : Option TlsResult
  pub http2 : Option Bool

-- `http11Verdict`
after_handshake : Bool → Option HttpResult → Option Bool
after_handshake failed none = none
after_handshake failed (some r) =
    if failed
    then none
    else if ltb 0 r.status
    then some true
    else if has_infix (lit "malformed HTTP") r.error
    then some false
    else none

by_tls : Option TlsResult → Option HttpResult → Option Bool
unfolding after_handshake
by_tls none res = none
by_tls (some t) res =
    if t.no_alpn then some false else after_handshake (is_handshake_failed t.chain) res

unfoldable pub http11_verdict : PortState → Option TlsResult → Option HttpResult → Option Bool
unfolding by_tls after_handshake
http11_verdict st tls res = if is_refused st then some false else by_tls tls res

-- `h3Advertised`
unfoldable pub offers_h3 : Bytes → Bool
offers_h3 entry =
    let id = (cut (trim_space entry) b'=').0 in id =? lit "h3" || has_prefix (lit "h3-") id

unfoldable pub h3_advertised_in : Option HttpResult → Option Bool
h3_advertised_in none = none
h3_advertised_in (some r) =
    if r.status == 0 then none else some (any offers_h3 (split r.alt_svc b','))

-- `http3Verdict`: the reasons of an endpoint that answered and refused.
unfoldable pub answered_reasons : List Bytes
answered_reasons =
    lit "tls_rejected"
    ∷ lit "version_negotiation"
    ∷ lit "stateless_reset"
    ∷ lit "transport_error"
    ∷ lit "application_error"
    ∷ []

unfoldable pub http3_verdict : Option QuicResult → Option Bool → Option Bool
http3_verdict none advertised = none
http3_verdict (some q) advertised =
    if q.supported
    then some true
    else if contains q.reason answered_reasons
    then some false
    else if q.reason =? lit "timeout" && is_known_false advertised
    then some false
    else none

-- `httpVersionsFor`
unfoldable pub http_versions_for : AddrProbe → Option QuicResult → HttpVersions
http_versions_for p q =
    let adv = h3_advertised_in p.https_res in
    record {
      http1_1 = http11_verdict p.https p.tls p.https_res;
      http2 = p.http2;
      http3 = http3_verdict q adv;
      h3_advertised = adv;
    }
