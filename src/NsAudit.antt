-- ===== src/NsAudit.antt =====
-- nsaudit.go: the audit of every nameserver address. What the two attempts at a server are answered
-- is the argument `first` and `second`; the order in which parallel tasks finish is the order of
-- a list.
pub mod Server
pub mod Serials
pub mod Plan
use domaintest.Prelude.{
  if◌then◌else◌, is_nil, drop, take, any, first, ℤ, ℤ_beq, ℕ, Bool, true, false, not, ◌&&◌, ◌||◌,
  Option, none, some, List, [], ◌∷◌, ◌++◌, pos,
}
use domaintest.Text.Sort.{text_le}
use domaintest.Addr.Reserved.{reserved_reason}
use domaintest.Text.{Bytes, lit, ◌=?◌, first_non_empty, fields, has_infix, contains}
use domaintest.Addr.{Addr, NetIp, is4, unmap}
use domaintest.Dig.{DigMessage, run_dig, has_flag, message_records}
use domaintest.Records.{Rr}
use domaintest.Text.Numbers.{atoi, itoa}
use domaintest.Trace.Ask.{Runner, at_least_one}

-- `NSServer`
pub record NsServer : Type 0 where
  pub name : Bytes
  pub ip : Bytes
  pub aa : Bool
  pub rcode : Bytes
  pub serial : ℤ
  pub tcp : Bool
  pub edns : Bool
  pub no_soa : Bool
  pub retries : ℕ
  pub reserved_for : Bytes
  pub error : Bytes

-- `NSServer{Name: name, IP: ip}`
abbrev pub new_server : Bytes → Bytes → NsServer
new_server name ip = record {
  name = name;
  ip = ip;
  aa = false;
  rcode = [];
  serial = pos 0;
  tcp = false;
  edns = false;
  no_soa = false;
  retries = 0;
  reserved_for = [];
  error = [];
}

-- `soaSerial`
abbrev third_number : List Bytes → ℤ
third_number (mname ∷ rname ∷ serial ∷ more) = (atoi serial).0
third_number _ = pos 0

unfoldable pub soa_serial : Bytes → ℤ
soa_serial rdata = third_number (fields rdata)

-- The verdict on the UDP answer in `interpretAudit`.
unfoldable pub udp_aa : DigMessage → Bool
udp_aa udp = has_flag udp (lit "aa") && udp.status =? lit "NOERROR"

first_serial : List Rr → ℤ
first_serial [] = pos 0
first_serial (rr ∷ rest) = soa_serial rr.rdata

answered_over_tcp : List DigMessage → Bool
answered_over_tcp [] = false
answered_over_tcp (m ∷ rest) = is_nil m.error && m.status =? lit "NOERROR"

unfoldable pub not_authoritative : Bytes → Bytes
not_authoritative status = lit "not authoritative (" ++ (status ++ lit ")")

-- `interpretAudit` on the first message and the others.
unfoldable pub interpret_audit : NsServer → DigMessage → List DigMessage → NsServer
unfolding first_serial answered_over_tcp
interpret_audit s udp more =
    let soa = message_records udp (lit "SOA") in
    record s {
      rcode = udp.status;
      aa = udp_aa udp;
      edns = udp.opt || any (λ m. m.opt) (take 1 (drop 1 more));
      serial = first_serial soa;
      no_soa = is_nil soa && (udp_aa udp && not (has_flag udp (lit "tc")));
      tcp = answered_over_tcp more;
      error = if udp_aa udp then [] else not_authoritative udp.status;
    }

-- `unanswered`
unfoldable pub no_answer_texts : List Bytes
no_answer_texts =
    lit "timed out"
    ∷ lit "no servers could be reached"
    ∷ lit "no response"
    ∷ lit "communications error"
    ∷ lit "unreachable"
    ∷ lit "connection refused"
    ∷ []

unfoldable pub unanswered : Bytes → Bool
unanswered error = if is_nil error then false else any (λ s. has_infix s error) no_answer_texts

module _ (net : NetIp) where
  -- `nsAuditArgs`
  unfoldable pub ns_audit_args : Addr → Bytes → ℕ → List Bytes
  ns_audit_args ip domain timeout =
      lit "+yaml"
      ∷ lit "+norecurse"
      ∷ lit "+tries=1"
      ∷ (lit "+time=" ++ itoa (at_least_one timeout))
      ∷ (if is4 ip then lit "-4" else lit "-6")
      ∷ (lit "@" ++ net.addr_string ip)
      ∷ domain
      ∷ lit "SOA"
      ∷ domain
      ∷ lit "SOA"
      ∷ lit "+tcp"
      ∷ domain
      ∷ lit "SOA"
      ∷ lit "+dnssec"
      ∷ []

  -- `auditOnce`; `none` where the source would index an empty list.
  audit_messages : NsServer → List DigMessage → Option NsServer
  audit_messages s [] = none
  audit_messages s (udp ∷ more) =
      if not (is_nil udp.error)
      then some (record s { error = first_non_empty (udp.error ∷ lit "no response" ∷ []) })
      else some (interpret_audit s udp more)

  unfoldable pub audit_once : Runner → Bytes → Addr → Bytes → ℕ → Option NsServer
  unfolding audit_messages interpret_audit
  audit_once run name ip domain timeout =
      audit_messages (new_server name (net.addr_string ip))
        (run_dig run (ns_audit_args ip domain timeout))

  -- `auditServer`; the flag is `ctx.Err() == nil` behind the first attempt.
  abbrev pub retried : Option NsServer → Option NsServer
  retried none = none
  retried (some s) = some (record s { retries = 1 })

  abbrev pub retry_if : Bool → Option NsServer → Option NsServer → Option NsServer
  retry_if alive none again = none
  retry_if alive (some s) again = if unanswered s.error && alive then retried again else some s

  unfoldable pub audit_server : Runner → Runner → Bool → Bytes → Addr → Bytes → ℕ → Option NsServer
  unfolding audit_once
  audit_server run_first run_second alive name ip domain timeout =
      retry_if alive (audit_once run_first name ip domain timeout)
        (audit_once run_second name ip domain timeout)

  -- `familyOf` of run.go
  unfoldable pub family_of : Addr → Bytes
  family_of ip = if is4 (unmap ip) then lit "ipv4" else lit "ipv6"

  unfoldable pub reserved_server : Bytes → Addr → Bytes → NsServer
  reserved_server name ip reason = record (new_server name (net.addr_string ip)) {
    reserved_for = reason;
    error = lit "reserved address (" ++ (reason ++ lit "): not queried");
  }

  -- The loops of `auditAll` over the addresses, each with its nameserver: the servers that are
  -- reported at once, and the addresses that a task is queued for.
  unfoldable pub plan : List Bytes → List (Bytes × Addr) → List NsServer × List (Bytes × Addr)
  plan families [] = ([], [])
  plan families ((name, ip) ∷ rest) =
      let (servers, tasks) = plan families rest in
      let reason = reserved_reason net ip in
      if not (contains (family_of ip) families)
      then (servers, tasks)
      else if not (is_nil reason)
      then (reserved_server name ip reason ∷ servers, tasks)
      else (servers, (name, ip) ∷ tasks)

-- `sort.Slice` of the servers by name and then by address.
server_before : NsServer → NsServer → Bool
server_before a b = if a.name =? b.name then text_le a.ip b.ip else text_le a.name b.name

insert_server : NsServer → List NsServer → List NsServer
insert_server s [] = s ∷ []
insert_server s (x ∷ xs) =
    let rest = insert_server s xs in if server_before s x then s ∷ (x ∷ xs) else x ∷ rest

unfoldable pub sort_servers : List NsServer → List NsServer
unfolding insert_server server_before
sort_servers [] = []
sort_servers (s ∷ rest) = insert_server s (sort_servers rest)

-- `serialsConsistent`: the loop with the serial seen last, if one was seen.
abbrev pub counts : NsServer → Bool
counts s = s.aa && not (ℤ_beq s.serial (pos 0))

unfoldable pub serials_from : Option ℤ → List NsServer → Option Bool
serials_from none [] = none
serials_from (some first) [] = some true
serials_from none (s ∷ rest) =
    let next = serials_from (some s.serial) rest in
    let same = serials_from none rest in if counts s then next else same
serials_from (some first) (s ∷ rest) =
    let next = serials_from (some s.serial) rest in
    let same = serials_from (some first) rest in
    if counts s then (if ℤ_beq s.serial first then next else some false) else same

unfoldable pub serials_consistent : List NsServer → Option Bool
unfolding serials_from
serials_consistent servers = serials_from none servers

-- What `auditAll` leaves in the report, from the servers reported at once and those of the tasks in
-- the order in which they finished.
unfoldable pub audit_all : List NsServer → List NsServer → List NsServer × Option Bool
unfolding sort_servers serials_consistent
audit_all at_once finished =
    let servers = sort_servers (at_once ++ finished) in (servers, serials_consistent servers)
