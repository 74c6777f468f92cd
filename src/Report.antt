-- ===== src/Report.antt =====
-- report.go: the report that the findings are built from. Fields that no judgement reads are left
-- out. The text that `%q` makes is a parameter, as is the public suffix list.
use domaintest.Prelude.{ℤ, Bool, true, false, Option, List}
use domaintest.Caa.{CaaReport}
use domaintest.Dnssec.{DnssecReport}
use domaintest.Trace.{Delegation}
use domaintest.Mail.{MailReport}
use domaintest.Nameservers.{NsReport}
use domaintest.Records.{LookupMap}
use domaintest.Web.{WebSection}
use domaintest.Wildcard.{WildcardReport}
use domaintest.Text.{Bytes}
pub mod Zone
pub mod Presence
pub mod Policies
pub mod Build
pub mod Mirror
pub mod Severities
pub mod Specific
pub mod Verdicts

-- Reachability over one family: "yes", "no" or "skipped".
pub data Reach : Type 0 where
  yes no skipped : Reach

abbrev pub is_unreachable : Reach → Bool
is_unreachable Reach.no = true
is_unreachable _ = false

-- `DNSSection`. The map of reachability is a list of pairs, each family once.
pub record DnsSection : Type 0 where
  pub apex : LookupMap
  pub www : LookupMap
  pub resolver_reachable : List (Bytes × Reach)

-- `RDAPReport` of rdap.go
pub record RdapReport : Type 0 where
  pub domain : Bytes
  pub registered : Option Bool
  pub status : List Bytes
  pub error : Bytes

-- The values of `hsts_preload`; `unset` is the empty text.
pub data Preload : Type 0 where
  unset preloaded absent unknown : Preload

abbrev pub is_preloaded : Preload → Bool
is_preloaded Preload.preloaded = true
is_preloaded _ = false

-- The result of `TLSAReport` of run.go, which is unverified if no chain was there to be checked.
pub data TlsaState : Type 0 where
  no_record unknown match mismatch unverified : TlsaState

-- `TLSAReport`
pub record TlsaReport : Type 0 where
  pub result : TlsaState
  pub signed : Bool

-- `Report`
pub record Report : Type 0 where
  pub domain : Bytes
  pub not_a_zone : Bool
  pub reserved_name : Bytes
  pub enclosing_zone : Bytes
  pub max_time_sec : ℤ
  pub dns : DnsSection
  pub dnssec : DnssecReport
  pub delegation : Delegation
  pub web : WebSection
  pub mail : Option MailReport
  pub nameservers : Option NsReport
  pub caa : Option CaaReport
  pub tlsa : Option TlsaReport
  pub wildcard : Option WildcardReport
  pub rdap : Option RdapReport
  pub reserved_addresses : List Bytes
  pub hsts_preload : Preload
  pub hsts_preload_covered_by : Bytes
  pub hsts_preload_policy : Bytes
  pub hsts_preload_error : Bytes
  pub hsts_preload_include_subdomains : Option Bool
  pub deadline_reached : Bool
