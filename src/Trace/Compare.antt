-- ===== src/Trace/Compare.antt =====
-- What the delegation status says of the NS answers in the trace.
use domaintest.Prelude.{
  is_nil, last_or, ℕ, ◌≡◌, refl, ◌↔◌, ◌⊎◌, Bool, true, false, not, ◌&&◌, none, List, [], ◌∷◌, arith,
}
use domaintest.Names.{Dpdomain, fqdn_of}
use domaintest.Text.{Bytes, contains, join, lit}
use domaintest.Trace.Diff.{IsSubset, set_diff-eq-nil_iff, contains-set_diff}
use domaintest.Trace.{
  Delegation, DelegationStatus, TraceBlock, compare_sets, compare_answers, compare_delegation,
  with_ns, ns_for, soa_only_child, ReceivedRe, no_delegation,
}
use domaintest.Trace.Ask.{Runner, trace_delegation, ask_parent, traced, answers_for}

-- Two lists hold the same names.
abbrev pub SameNames : List Bytes → List Bytes → Type 0
SameNames a b = (x : Bytes) → contains x a ≡ contains x b

same-of-subsets : (a b : List Bytes) → IsSubset a b → IsSubset b a → SameNames a b
same-of-subsets a b h k x = ground (arith, h x, k x)

subset-of-same : (a b : List Bytes) → SameNames a b → IsSubset a b × IsSubset b a
subset-of-same a b h = (λ x m. cc (h x, m), λ x m. cc (h x, m))

module _ (dp : Dpdomain) where
  compare_sets-match_iff :
      (d : Delegation) (parent child : List Bytes)
      → ((compare_sets dp d parent child).status ≡ DelegationStatus.match) ↔ SameNames parent child
  unfolding compare_sets
  compare_sets-match_iff d parent child =
      let (to, from) = set_diff-eq-nil_iff parent child in
      let (to', from') = set_diff-eq-nil_iff child parent in
      (
        (λ h. same-of-subsets parent child (to (ground arith)) (to' (ground arith))),
        λ s. let (p, q) = subset-of-same parent child s in ground (arith, from p, from' q),
      )

  -- The trace gave at least two NS answers for the name: the parent's, and last the child's own.
  pub record IsCompared (d : Delegation) (parent child : List Bytes) : Type 0 where
    pub match_iff : (d.status ≡ DelegationStatus.match) ↔ SameNames parent child
    pub parent_ns : d.parent_ns ≡ parent
    pub child_ns : d.child_ns ≡ child
    pub parent_only :
        (x : Bytes) → contains x d.parent_only ≡ (contains x parent && not (contains x child))
    pub child_only :
        (x : Bytes) → contains x d.child_only ≡ (contains x child && not (contains x parent))
    pub decided : (d.status ≡ DelegationStatus.match) ⊎ (d.status ≡ DelegationStatus.mismatch)

  compare_sets-IsCompared :
      (d : Delegation) (parent child : List Bytes)
      → IsCompared (compare_sets dp d parent child) parent child
  compare_sets-IsCompared d parent child = record {
    match_iff = compare_sets-match_iff d parent child;
    parent_ns = unfold compare_sets in refl;
    child_ns = unfold compare_sets in refl;
    parent_only = unfold compare_sets in (λ x. (contains-set_diff x parent child).0);
    child_only = unfold compare_sets in (λ x. (contains-set_diff x child parent).0);
    decided = unfold compare_sets in ground arith;
  }

  -- With two or more NS answers the delegation matches exactly when the first and the last of
  -- them name the same servers, else it is a mismatch; the differences listed are exactly the
  -- names that stand in one of them only.
  pub compare_delegation-IsCompared :
      (blocks : List TraceBlock) (diags : List Bytes) (domain : Bytes) (b : TraceBlock)
      (after : List TraceBlock) (c : TraceBlock × List TraceBlock)
      (more : List (TraceBlock × List TraceBlock))
      → with_ns dp blocks (fqdn_of dp domain) ≡ (b, after) ∷ c ∷ more
      → IsCompared
          (compare_delegation dp blocks diags domain)
          (ns_for dp b (fqdn_of dp domain))
          (ns_for dp (last_or c more).0 (fqdn_of dp domain))
  unfolding compare_delegation
  compare_delegation-IsCompared blocks diags domain b after c more h =
      rw (h, compare_answers)
        (compare_sets-IsCompared
          (record no_delegation {
            parent_server = b.server;
            child_server = (last_or c more).0.server;
            error = join diags (lit "; ");
          })
          _ _)

  -- There is one NS answer, no later block carries the zone's SOA, and the server that gave it
  -- is one of the servers it names.
  abbrev pub IsShared : List (TraceBlock × List TraceBlock) → Bytes → Type 0
  IsShared [] fqdn = ⊥
  IsShared ((b, after) ∷ []) fqdn =
      (soa_only_child after fqdn ≡ none)
      × (contains (fqdn_of dp b.server) (ns_for dp b fqdn) ≡ true)
  IsShared (b ∷ c ∷ more) fqdn = ⊥

  module _ (received : ReceivedRe) (run : Runner) where
    -- The parent's server is known, time is left, and the server answers authoritatively.
    abbrev pub confirms : Delegation → Bool → Bool → ℕ → Bytes → Bool
    confirms d alive ipv6 timeout domain =
        not (is_nil d.parent_server)
        && alive
        && answers_for dp received run d.parent_server ipv6 timeout domain

    -- What is kept of the delegation when the parent's server answers for the name.
    abbrev pub hosted_by_parent : Delegation → Delegation
    hosted_by_parent d = record d {
      status = DelegationStatus.same_servers;
      child_ns = d.parent_ns;
      child_server = d.parent_server;
    }

    abbrev pub is_no_child_answer : DelegationStatus → Bool
    is_no_child_answer DelegationStatus.no_child_answer = true
    is_no_child_answer _ = false

    -- The status after asking, and all of the delegation after asking.
    abbrev pub IsAfter : Delegation → Delegation → Bool → Type 0
    IsAfter d after confirmed =
        ((after.status ≡ DelegationStatus.same_servers) ↔ (
          (d.status ≡ DelegationStatus.same_servers)
          ⊎ ((d.status ≡ DelegationStatus.no_child_answer) × (confirmed ≡ true))))
        × (((d.status ≡ DelegationStatus.no_child_answer)
              × (confirmed ≡ true)
              × (after ≡ hosted_by_parent d))
            ⊎ (((is_no_child_answer d.status && confirmed) ≡ false) × (after ≡ d)))

    ask_parent_lem :
        (d : Delegation) (alive ipv6 : Bool) (timeout : ℕ) (domain : Bytes)
        → IsAfter d
            (ask_parent dp received run d alive ipv6 timeout domain)
            (confirms d alive ipv6 timeout domain)
    unfolding ask_parent
    ask_parent_lem d alive ipv6 timeout domain = (ground arith, ground arith)

    -- What asking the parent's server makes of the delegation that was traced.
    abbrev pub IsAsked : Bool → Bool → ℕ → Bytes → Type 0
    IsAsked alive ipv6 timeout domain =
        let before = traced dp received run ipv6 timeout domain in
        let after = trace_delegation dp received run alive ipv6 timeout domain in
        IsAfter before after (confirms before alive ipv6 timeout domain)

    -- The delegation ends as `same_servers` exactly when the comparison of the trace says so, or
    -- when that saw no child answer and the parent's server, which is known and asked in time,
    -- answers authoritatively. In this second case the child's servers and the server that gave
    -- them become the parent's, and all else is kept; in every other case asking changes nothing.
    pub trace_delegation_lem :
        (alive ipv6 : Bool) (timeout : ℕ) (domain : Bytes) → IsAsked alive ipv6 timeout domain
    unfolding trace_delegation
    trace_delegation_lem alive ipv6 timeout domain =
        ask_parent_lem (traced dp received run ipv6 timeout domain) alive ipv6 timeout domain
