-- ===== src/Web.antt =====
-- httpprobe.go, tlsprobe.go, quic.go, tcp.go and report.go: what the probes of the web hand to the
-- report. Fields that no judgement reads are left out.
use domaintest.Prelude.{
  ◌==◌, if◌then◌else◌, ℤ, ℕ, Bool, true, false, ◌||◌, Option, none, some, List, [], ◌∷◌, ◌++◌,
}
use domaintest.Text.{Bytes, lit}
use domaintest.Text.Sort.{text_le}

-- `PortState`
pub data PortState : Type 0 where
  port_open port_refused port_timeout port_unreachable port_error port_skipped : PortState

unfoldable pub port_text : PortState → Bytes
port_text PortState.port_open = lit "open"
port_text PortState.port_refused = lit "refused"
port_text PortState.port_timeout = lit "timeout"
port_text PortState.port_unreachable = lit "unreachable"
port_text PortState.port_error = lit "error"
port_text PortState.port_skipped = lit "skipped"

abbrev pub is_open : PortState → Bool
is_open PortState.port_open = true
is_open _ = false

abbrev pub is_refused : PortState → Bool
is_refused PortState.port_refused = true
is_refused _ = false

abbrev pub is_skipped : PortState → Bool
is_skipped PortState.port_skipped = true
is_skipped _ = false

-- The verdicts on a chain, `ChainValid` and the others.
pub data Chain : Type 0 where
  valid expired not_yet_valid hostname_mismatch self_signed incomplete_chain : Chain
  untrusted_root invalid handshake_failed : Chain

unfoldable pub chain_text : Chain → Bytes
chain_text Chain.valid = lit "valid"
chain_text Chain.expired = lit "expired"
chain_text Chain.not_yet_valid = lit "not_yet_valid"
chain_text Chain.hostname_mismatch = lit "hostname_mismatch"
chain_text Chain.self_signed = lit "self_signed"
chain_text Chain.incomplete_chain = lit "incomplete_chain"
chain_text Chain.untrusted_root = lit "untrusted_root"
chain_text Chain.invalid = lit "invalid"
chain_text Chain.handshake_failed = lit "handshake_failed"

abbrev pub is_valid : Chain → Bool
is_valid Chain.valid = true
is_valid _ = false

abbrev pub is_expired : Chain → Bool
is_expired Chain.expired = true
is_expired _ = false

abbrev pub is_handshake_failed : Chain → Bool
is_handshake_failed Chain.handshake_failed = true
is_handshake_failed _ = false

-- `HSTS` and `HTTPResult`
pub record Hsts : Type 0 where
  pub max_age : ℤ
  pub include_subdomains : Bool
  pub preload : Bool

pub record HttpResult : Type 0 where
  pub status : ℕ
  pub location : Bytes
  pub server : Bytes
  pub hsts : Option Hsts
  pub alt_svc : Bytes
  pub error : Bytes

-- `CertInfo` and `TLSResult`
pub record CertInfo : Type 0 where
  pub subject : Bytes
  pub issuer : Bytes
  pub days_remaining : ℤ
  pub sans : List Bytes
  pub covers_apex : Bool
  pub covers_www : Bool
  pub wildcard : Bool
  pub fingerprint : Bytes

pub record TlsResult : Type 0 where
  pub chain : Chain
  pub problems : List Bytes
  pub version : Bytes
  pub tls10 : Option Bool
  pub tls11 : Option Bool
  pub cert : Option CertInfo
  pub error : Bytes
  pub no_alpn : Bool

-- `QUICResult`
pub record QuicResult : Type 0 where
  pub supported : Bool
  pub reason : Bytes

-- `HTTPVersions`; `none` is null.
pub record HttpVersions : Type 0 where
  pub http1_1 : Option Bool
  pub http2 : Option Bool
  pub http3 : Option Bool
  pub h3_advertised : Option Bool

-- `RedirectHop`, the reasons why a chain stopped, and `RedirectChain`
pub record RedirectHop : Type 0 where
  pub url : Bytes
  pub status : ℕ
  pub location : Bytes

pub data RedirectEnd : Type 0 where
  final external loop hop_limit error : RedirectEnd

abbrev pub is_loop : RedirectEnd → Bool
is_loop RedirectEnd.loop = true
is_loop _ = false

abbrev pub is_hop_limit : RedirectEnd → Bool
is_hop_limit RedirectEnd.hop_limit = true
is_hop_limit _ = false

pub record RedirectChain : Type 0 where
  pub hops : List RedirectHop
  pub ended : RedirectEnd
  pub final_url : Bytes
  pub has_loop : Bool
  pub error : Bytes

-- `AddrWeb` and `HostWeb`. A map of chains by family is a list of pairs, each family once.
pub record AddrWeb : Type 0 where
  pub ip : Bytes
  pub http : PortState
  pub https : PortState
  pub http_res : Option HttpResult
  pub https_res : Option HttpResult
  pub tls : Option TlsResult
  pub tlsa : Bytes
  pub quic : Option QuicResult
  pub http_versions : Option HttpVersions

pub record HostWeb : Type 0 where
  pub same_as_apex : Bool
  pub via_wildcard : Bool
  pub ipv4 : List AddrWeb
  pub ipv6 : List AddrWeb
  pub redirects : List (Bytes × RedirectChain)
  pub cert_consistent : Option Bool

-- `WebSection`
pub record WebSection : Type 0 where
  pub apex : Option HostWeb
  pub www : Option HostWeb

-- `HostWeb.addrs`, on a pointer that may be nil.
unfoldable pub web_addrs : Option HostWeb → List AddrWeb
web_addrs none = []
web_addrs (some h) = h.ipv4 ++ h.ipv6

-- `isRedirect` and `probeRefused`
unfoldable pub is_redirect_status : ℕ → Bool
is_redirect_status s = s == 301 || s == 302 || s == 303 || s == 307 || s == 308

unfoldable pub probe_refused : ℕ → Bool
probe_refused s = s == 401 || s == 403 || s == 407 || s == 417 || s == 429

-- `isTrue`
abbrev pub is_true : Option Bool → Bool
is_true (some true) = true
is_true _ = false

-- `b != nil && !*b`
abbrev pub is_known_false : Option Bool → Bool
is_known_false (some false) = true
is_known_false _ = false

-- The entries of a map by family in the order of `sortedChainKeys`.
insert_chain : Bytes × RedirectChain → List (Bytes × RedirectChain) → List (Bytes × RedirectChain)
insert_chain c [] = c ∷ []
insert_chain c (d ∷ rest) =
    let later = insert_chain c rest in if text_le c.0 d.0 then c ∷ (d ∷ rest) else d ∷ later

unfoldable pub sorted_chains : List (Bytes × RedirectChain) → List (Bytes × RedirectChain)
unfolding insert_chain
sorted_chains [] = []
sorted_chains (c ∷ rest) = insert_chain c (sorted_chains rest)
