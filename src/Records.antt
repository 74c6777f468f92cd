-- ===== src/Records.antt =====
-- records.go: lookups and resource records, as every check reads them.
pub mod Parse
pub mod RoundTrip
use domaintest.Prelude.{
  ℕ, ◌+◌, Bool, true, false, not, ◌&&◌, ◌||◌, List, [], ◌∷◌, none, some, ℤ, if◌then◌else◌, is_nil,
  length, ltb, all,
}
use domaintest.Addr.{Addr, NetIp, unmap}
use domaintest.Text.{Bytes, ◌=?◌, lit, fields, join, trim_suffix}

-- `Trust`; `unset` is the empty text.
pub data Trust : Type 0 where
  unset secure insecure bogus : Trust

-- `LookupStatus`; `unset` is the status of the zero `Lookup`, of a lookup never made.
pub data LookupStatus : Type 0 where
  unset ok nxrrset nxdomain failure timeout : LookupStatus

abbrev pub is_ok : LookupStatus → Bool
is_ok LookupStatus.ok = true
is_ok _ = false

abbrev pub is_nxrrset : LookupStatus → Bool
is_nxrrset LookupStatus.nxrrset = true
is_nxrrset _ = false

abbrev pub is_nxdomain : LookupStatus → Bool
is_nxdomain LookupStatus.nxdomain = true
is_nxdomain _ = false

abbrev pub is_failure : LookupStatus → Bool
is_failure LookupStatus.failure = true
is_failure _ = false

abbrev pub is_timeout : LookupStatus → Bool
is_timeout LookupStatus.timeout = true
is_timeout _ = false

abbrev pub is_set : LookupStatus → Bool
is_set LookupStatus.unset = false
is_set _ = true

abbrev pub is_secure : Trust → Bool
is_secure Trust.secure = true
is_secure _ = false

abbrev pub is_insecure : Trust → Bool
is_insecure Trust.insecure = true
is_insecure _ = false

-- `RR`
pub record Rr : Type 0 where
  pub owner : Bytes
  pub ttl : ℤ
  pub rtype : Bytes
  pub rdata : Bytes
  pub rdlen : ℕ

-- `Lookup`
pub record Lookup : Type 0 where
  pub name : Bytes
  pub qtype : Bytes
  pub status : LookupStatus
  pub trust : Trust
  pub records : List Bytes
  pub cname : List Bytes
  pub error : Bytes
  pub retries : ℕ
  pub unqueryable : Bool
  pub rrs : List Rr

-- The zero value of `Lookup`: what a Go map gives for a missing key.
abbrev pub no_lookup : Lookup
no_lookup = record {
  name = [];
  qtype = [];
  status = LookupStatus.unset;
  trust = Trust.unset;
  records = [];
  cname = [];
  error = [];
  retries = 0;
  unqueryable = false;
  rrs = [];
}

-- A `map[string]Lookup`, each key once.
abbrev pub LookupMap : Type 0
LookupMap = List (Bytes × Lookup)

-- `m[k]`
unfoldable pub get : LookupMap → Bytes → Lookup
get [] k = no_lookup
get ((j, l) ∷ m) k = let rest = get m k in if j =? k then l else rest

-- `Lookup.Answered`
unfoldable pub answered : Lookup → Bool
answered l = is_ok l.status || is_nxrrset l.status || is_nxdomain l.status

-- `Lookup.HasRecords`
unfoldable pub has_records : Lookup → Bool
has_records l = is_ok l.status && ltb 0 (length l.records)

-- `Lookup.Addrs`
module _ (net : NetIp) where
  unfoldable pub addrs_of : List Bytes → List Addr
  addrs_of [] = []
  addrs_of (rec ∷ rest) = elim (net.parse_addr rec) [
    | some ip ↦ unmap ip ∷ addrs_of rest
    | none ↦ addrs_of rest
  ]

  abbrev pub addrs : Lookup → List Addr
  addrs l = addrs_of l.records

-- The loop of `Lookup.SOAOwner`.
unfoldable pub soa_owner_of : List Rr → Bytes
soa_owner_of [] = []
soa_owner_of (rr ∷ rest) =
    let later = soa_owner_of rest in if rr.rtype =? lit "SOA" then rr.owner else later

abbrev pub soa_owner : Lookup → Bytes
soa_owner l = soa_owner_of l.rrs

-- `Lookup.IsNullMX`
is_null_record : Bytes → Bool
is_null_record rec = join (fields rec) (lit " ") =? lit "0 ."

unfoldable pub is_null_mx : Lookup → Bool
unfolding is_null_record
is_null_mx l = if not (has_records l) then false else all is_null_record l.records

-- `wireNameLen`
unfoldable pub wire_name_len : Bytes → ℕ
wire_name_len name =
    let bare = trim_suffix (lit ".") name in if is_nil bare then 1 else length bare + 2

-- `Lookup.udpAnswerOctets`
first_owner : List Rr → Bytes
first_owner [] = []
first_owner (rr ∷ rest) = rr.owner

answer_octets : Bytes → List Rr → ℕ
answer_octets qtype [] = 0
answer_octets qtype (rr ∷ rest) =
    (if not (rr.rtype =? qtype) && not (rr.rtype =? lit "CNAME") then 0 else 12 + rr.rdlen)
    + answer_octets qtype rest

unfoldable pub udp_answer_octets : Lookup → ℕ
unfolding first_owner answer_octets wire_name_len
udp_answer_octets l =
    if not (l.qtype =? lit "TXT")
    then 0
    else let name = if is_nil l.name then first_owner l.rrs else l.name in
      12 + wire_name_len name + 4 + answer_octets l.qtype l.rrs
