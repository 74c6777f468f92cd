-- ===== src/Zone.antt =====
-- run.go, reserved.go and publicsuffix.go: whether the name is a zone at all, and what is then said
-- of it. What the public suffix list says is a parameter; the trace and the lookups were made before.
pub mod Verdict
use domaintest.Prelude.{
  if◌then◌else◌, is_nil, any, Bool, true, false, not, ◌&&◌, ◌||◌, List, [], ◌∷◌, ◌++◌,
}
use domaintest.Text.{Bytes, ◌=?◌, lit, has_suffix, first_non_empty}
use domaintest.Dnssec.{
  DnssecState, DnssecReport, BogusProbe, apex_types, classify_dnssec, classify_by_trust,
}
use domaintest.Names.{Dpdomain, bare_name}
use domaintest.Records.{Lookup, LookupMap, get, soa_owner, has_records, is_nxrrset}
use domaintest.Trace.{Delegation, DelegationStatus, no_delegation}

-- `specialUseSuffixes`
unfoldable pub special_use_suffixes : List (Bytes × Bytes)
special_use_suffixes =
    (lit "invalid", lit "RFC 6761")
    ∷ (lit "test", lit "RFC 6761")
    ∷ (lit "localhost", lit "RFC 6761")
    ∷ (lit "example", lit "RFC 6761")
    ∷ (lit "local", lit "RFC 6762")
    ∷ (lit "onion", lit "RFC 7686")
    ∷ (lit "home.arpa", lit "RFC 8375")
    ∷ []

abbrev pub is_at_or_under : Bytes → Bytes → Bool
is_at_or_under d suffix = d =? suffix || has_suffix (lit "." ++ suffix) d

-- The loop of `reservedName` over the suffixes.
unfoldable pub reserved_from : List (Bytes × Bytes) → Bytes → Bytes
reserved_from [] d = []
reserved_from ((suffix, rfc) ∷ rest) d =
    let later = reserved_from rest d in if is_at_or_under d suffix then rfc else later

-- What `psl.Lookup` returns.
pub record SuffixInfo : Type 0 where
  pub registrable : Bytes
  pub suffix : Bytes
  pub icann : Bool

abbrev pub SuffixList : Type 0
SuffixList = Bytes → SuffixInfo

-- `registrableDomain`, `isPublicSuffix` and `registrySuffix` of publicsuffix.go
unfoldable pub registrable_domain : SuffixList → Bytes → Bool
registrable_domain psl domain = not (is_nil domain) && (psl domain).registrable =? domain

unfoldable pub is_public_suffix : SuffixList → Bytes → Bool
is_public_suffix psl domain = not (is_nil domain) && (psl domain).suffix =? domain

unfoldable pub registry_suffix : SuffixList → Bytes → Bool
registry_suffix psl domain =
    not (is_nil domain) && ((psl domain).icann && (psl domain).suffix =? domain)

module _ (dp : Dpdomain) where
  -- `reservedName`
  unfoldable pub reserved_name : Bytes → Bytes
  unfolding reserved_from special_use_suffixes
  reserved_name domain =
      let d = bare_name dp domain in if is_nil d then [] else reserved_from special_use_suffixes d

  -- The loop of `enclosingZone` over the record types.
  unfoldable pub enclosing_from : Bytes → LookupMap → List Bytes → Bytes
  enclosing_from fqdn apex [] = []
  enclosing_from fqdn apex (t ∷ rest) =
      let owner = soa_owner (get apex t) in
      let later = enclosing_from fqdn apex rest in
      if not (is_nil owner) && (not (owner =? fqdn) && has_suffix (lit "." ++ owner) fqdn)
      then bare_name dp owner
      else later

  unfoldable pub enclosing_zone : Bytes → LookupMap → Bytes
  unfolding enclosing_from
  enclosing_zone domain apex = enclosing_from (domain ++ lit ".") apex apex_types

  -- `anyPositive`
  unfoldable pub any_positive : LookupMap → Bool
  any_positive apex = any (λ t. not (t =? lit "NS") && has_records (get apex t)) apex_types

  -- `detectNotAZone`
  unfoldable pub detect_not_a_zone : Bytes → LookupMap → Delegation → Bool × Bytes
  detect_not_a_zone domain apex deleg =
      let zone = enclosing_zone domain apex in
      let ns = get apex (lit "NS") in
      if not (is_nil deleg.parent_ns)
      then (false, [])
      else if not (is_nil ns.cname)
      then (true, zone)
      else if not (is_nxrrset ns.status)
      then (false, [])
      else if is_nil zone && not (any_positive apex)
      then (false, [])
      else (true, zone)

  -- What `classifyZone` fills in.
  pub record ZoneReport : Type 0 where
    pub public_suffix : Bool
    pub reserved_by : Bytes
    pub not_a_zone : Bool
    pub enclosing : Bytes
    pub dnssec : DnssecReport
    pub delegation : Delegation

  reserved_dnssec : Bytes → DnssecReport
  reserved_dnssec rfc = record {
    state = DnssecState.unknown;
    ds = false;
    dnskey = false;
    ede = [];
    detail = lit "name reserved by " ++ (rfc ++ lit ", outside the global DNS");
  }

  -- `classifyZone`
  unfoldable pub classify_zone :
      SuffixList → Bytes → Lookup → Lookup → LookupMap → BogusProbe → Delegation → ZoneReport
  unfolding reserved_dnssec
  classify_zone psl domain ds dnskey apex probe deleg =
      let public = not (registrable_domain psl domain) && is_public_suffix psl domain in
      let rfc = reserved_name domain in
      let (host, zone) = detect_not_a_zone domain apex deleg in
      if not (is_nil rfc)
      then record {
        public_suffix = public;
        reserved_by = rfc;
        not_a_zone = false;
        enclosing = [];
        dnssec = reserved_dnssec rfc;
        delegation = record no_delegation {
          status = DelegationStatus.reserved_name;
          error = lit "name reserved by " ++ (rfc ++ lit ", outside the global DNS: not traced");
        };
      }
      else if host
      then record {
        public_suffix = public;
        reserved_by = rfc;
        not_a_zone = true;
        enclosing = zone;
        dnssec = classify_by_trust apex;
        delegation = record no_delegation {
          status = DelegationStatus.not_a_zone;
          error = lit "name is a host inside " ++ first_non_empty (zone ∷ lit "another zone" ∷ []);
        };
      }
      else record {
        public_suffix = public;
        reserved_by = rfc;
        not_a_zone = false;
        enclosing = zone;
        dnssec = classify_dnssec ds dnskey apex probe;
        delegation = deleg;
      }
