-- ===== src/Trace.antt =====
-- trace.go: the delegation of a domain, from the output of `dig +trace`. Running dig is a
-- parameter, and so is the regular expression of the ";; Received" line.
pub mod Diff
pub mod Compare
pub mod Ask
use domaintest.Prelude.{
  if◌then◌else◌, is_nil, any, keep, first, last_or, Bool, not, ◌&&◌, ◌||◌, Option, none, some, List,
  [], ◌∷◌, ◌++◌,
}
use domaintest.Names.{Dpdomain, fqdn_of}
use domaintest.Records.Parse.{parse_rr}
use domaintest.Records.{Rr}
use domaintest.Text.Sort.{sort_strings}
use domaintest.Text.{Bytes, lit, ◌=?◌, contains, join, split, trim_space, trim_prefix, has_prefix}

-- The delegation status values; `unset` is the empty text of a fresh `Delegation`.
pub data DelegationStatus : Type 0 where
  unset match mismatch not_delegated no_child_answer same_servers : DelegationStatus
  child_no_ns not_a_zone reserved_name error : DelegationStatus

-- `Delegation`
pub record Delegation : Type 0 where
  pub status : DelegationStatus
  pub parent_ns : List Bytes
  pub parent_server : Bytes
  pub child_ns : List Bytes
  pub child_server : Bytes
  pub parent_only : List Bytes
  pub child_only : List Bytes
  pub error : Bytes

abbrev pub no_delegation : Delegation
no_delegation = record {
  status = DelegationStatus.unset;
  parent_ns = [];
  parent_server = [];
  child_ns = [];
  child_server = [];
  parent_only = [];
  child_only = [];
  error = [];
}

-- `traceBlock`
pub record TraceBlock : Type 0 where
  pub rrs : List Rr
  pub server : Bytes
  pub ip : Bytes

abbrev pub no_block : TraceBlock
no_block = record { rrs = []; server = []; ip = [] }

-- `hasSOA` and `hasSOAFor`
unfoldable pub has_soa : TraceBlock → Bool
has_soa b = any (λ rr. rr.rtype =? lit "SOA") b.rrs

unfoldable pub has_soa_for : TraceBlock → Bytes → Bool
has_soa_for b fqdn = any (λ rr. rr.rtype =? lit "SOA" && rr.owner =? fqdn) b.rrs

-- `setDiff`
unfoldable pub set_diff : List Bytes → List Bytes → List Bytes
set_diff a b = sort_strings (keep (λ s. not (contains s b)) a)

-- `soaOnlyChild`
unfoldable pub soa_only_child : List TraceBlock → Bytes → Option TraceBlock
soa_only_child after fqdn = first (λ b. has_soa_for b fqdn) after

-- `classifyNoNS`, on the last block if there is one.
classify_last : Delegation → TraceBlock → Delegation
classify_last d last =
    if has_soa last
    then record d { status = DelegationStatus.not_delegated; parent_server = last.server }
    else record d {
      status = DelegationStatus.error;
      error =
          if is_nil d.error
          then lit "trace ended at " ++ (last.server ++ lit " without an NS answer for the domain")
          else d.error;
    }

unfoldable pub classify_no_ns : Delegation → List TraceBlock → Delegation
unfolding classify_last
classify_no_ns d [] = record d {
  status = DelegationStatus.error;
  error = if is_nil d.error then lit "dig +trace produced no responses" else d.error;
}
classify_no_ns d (b ∷ blocks) = classify_last d (last_or b blocks)

-- The regular expression `receivedRe`: the address and the server name it captures.
abbrev pub ReceivedRe : Type 0
ReceivedRe = Bytes → Option (Bytes × Bytes)

module _ (received : ReceivedRe) where
  abbrev close_block : Bytes → TraceBlock → TraceBlock
  close_block line cur = elim (received line) [
    | some (ip, server) ↦ record cur { server = server; ip = ip }
    | none ↦ cur
  ]

  abbrev add_record : Bytes → TraceBlock → TraceBlock
  add_record line cur = elim (parse_rr line) [
    | some rr ↦ record cur { rrs = cur.rrs ++ rr ∷ [] }
    | none ↦ cur
  ]

  -- The loop of `parseTrace`; the blocks and the diagnostics are put out in order.
  parse_lines : TraceBlock → List Bytes → List TraceBlock × List Bytes
  parse_lines cur [] = (if is_nil cur.rrs then [] else cur ∷ [], [])
  parse_lines cur (raw ∷ rest) =
      let line = trim_space raw in
      let same = parse_lines cur rest in
      let closed = parse_lines no_block rest in
      let grown = parse_lines (add_record line cur) rest in
      if is_nil line
      then same
      else if has_prefix (lit ";; Received") line
      then (close_block line cur ∷ closed.0, closed.1)
      else if has_prefix (lit ";; communications error") line
          || has_prefix (lit ";; connection timed out") line
          || has_prefix (lit ";; no servers could be reached") line
      then (same.0, trim_prefix (lit ";; ") line ∷ same.1)
      else if has_prefix (lit ";") line
      then same
      else grown

  unfoldable pub parse_trace : Bytes → List TraceBlock × List Bytes
  unfolding parse_lines
  parse_trace out = parse_lines no_block (split out b'\n')

module _ (dp : Dpdomain) where
  ns_targets : Bytes → List Rr → List Bytes
  ns_targets fqdn [] = []
  ns_targets fqdn (rr ∷ rest) =
      let more = ns_targets fqdn rest in
      if rr.rtype =? lit "NS" && rr.owner =? fqdn
      then (if not (is_nil (fqdn_of dp rr.rdata)) then fqdn_of dp rr.rdata ∷ more else more)
      else more

  -- `nsFor`
  unfoldable pub ns_for : TraceBlock → Bytes → List Bytes
  unfolding ns_targets
  ns_for b fqdn = sort_strings (ns_targets fqdn b.rrs)

  -- `classifyChildNoNS`
  unfoldable pub classify_child_no_ns : Delegation → TraceBlock → TraceBlock → Bytes → Delegation
  classify_child_no_ns d parent child fqdn = record d {
    status = DelegationStatus.child_no_ns;
    parent_ns = ns_for parent fqdn;
    parent_server = parent.server;
    child_server = child.server;
    parent_only = ns_for parent fqdn;
    error =
        if is_nil d.error
        then lit "zone at " ++ (child.server ++ lit " has a SOA but no NS records")
        else d.error;
  }

  -- `classifySingleBlock`
  unfoldable pub classify_single_block : Delegation → TraceBlock → Bytes → Delegation
  classify_single_block d b fqdn =
      if contains (fqdn_of dp b.server) (ns_for b fqdn)
      then record d {
        status = DelegationStatus.same_servers;
        parent_ns = ns_for b fqdn;
        parent_server = b.server;
        child_ns = ns_for b fqdn;
        child_server = b.server;
      }
      else record d {
        status = DelegationStatus.no_child_answer;
        parent_ns = ns_for b fqdn;
        parent_server = b.server;
      }

  -- The blocks with NS records for the name, each with the blocks after it.
  unfoldable pub with_ns : List TraceBlock → Bytes → List (TraceBlock × List TraceBlock)
  with_ns [] fqdn = []
  with_ns (b ∷ rest) fqdn =
      let more = with_ns rest fqdn in
      if not (is_nil (ns_for b fqdn)) then (b, rest) ∷ more else more

  -- The comparison of the first and the last of at least two NS answers.
  unfoldable pub compare_sets : Delegation → List Bytes → List Bytes → Delegation
  compare_sets d parent child = record d {
    status =
        if is_nil (set_diff parent child) && is_nil (set_diff child parent)
        then DelegationStatus.match
        else DelegationStatus.mismatch;
    parent_ns = parent;
    child_ns = child;
    parent_only = set_diff parent child;
    child_only = set_diff child parent;
  }

  -- The switch of `compareDelegation`, on the blocks with NS records.
  unfoldable pub compare_answers :
      Delegation → List (TraceBlock × List TraceBlock) → List TraceBlock → Bytes → Delegation
  unfolding compare_sets classify_no_ns classify_child_no_ns classify_single_block
  compare_answers d [] blocks fqdn = classify_no_ns d blocks
  compare_answers d ((b, after) ∷ []) blocks fqdn = elim (soa_only_child after fqdn) [
    | some child ↦ classify_child_no_ns d b child fqdn
    | none ↦ classify_single_block d b fqdn
  ]
  compare_answers d ((b, after) ∷ c ∷ more) blocks fqdn =
      let child = (last_or c more).0 in
      compare_sets (record d { parent_server = b.server; child_server = child.server })
        (ns_for b fqdn) (ns_for child fqdn)

  -- `compareDelegation`
  unfoldable pub compare_delegation : List TraceBlock → List Bytes → Bytes → Delegation
  unfolding compare_answers with_ns
  compare_delegation blocks diags domain =
      compare_answers (record no_delegation { error = join diags (lit "; ") })
        (with_ns blocks (fqdn_of dp domain)) blocks (fqdn_of dp domain)
