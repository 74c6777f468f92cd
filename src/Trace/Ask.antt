-- ===== src/Trace/Ask.antt =====
-- trace.go: running dig, and the direct question to the parent's server.
use domaintest.Trace.{
  ReceivedRe, TraceBlock, compare_delegation, Delegation, DelegationStatus, parse_trace,
}
use domaintest.Prelude.{
  ◌==◌, if◌then◌else◌, is_nil, ℕ, ◌/◌, Bool, true, false, not, ◌&&◌, ◌||◌, Option, none, some, List,
  [], ◌∷◌, ◌++◌,
}
use domaintest.Names.{Dpdomain}
use domaintest.Text.Numbers.{itoa}
use domaintest.Text.{Bytes, lit, contains, split, trim_space, trim_prefix, has_prefix, fields}

-- `familyIPv6` and its argument of dig.
abbrev pub family_flag : Bool → Bytes
family_flag ipv6 = if ipv6 then lit "-6" else lit "-4"

-- `maxInt(1, n)`
abbrev pub at_least_one : ℕ → ℕ
at_least_one n = if n == 0 then 1 else n

-- `traceArgs` and `authArgs`
unfoldable pub trace_args : Bool → ℕ → Bytes → List Bytes
trace_args ipv6 timeout domain =
    lit "+trace"
    ∷ lit "+nodnssec"
    ∷ lit "+tries=1"
    ∷ (lit "+time=" ++ itoa (at_least_one (timeout / 2)))
    ∷ family_flag ipv6
    ∷ lit "@a.root-servers.net"
    ∷ domain
    ∷ lit "NS"
    ∷ []

unfoldable pub auth_args : Bytes → Bool → ℕ → Bytes → List Bytes
auth_args server ipv6 timeout domain =
    lit "+norecurse"
    ∷ lit "+yaml"
    ∷ lit "+tries=1"
    ∷ (lit "+time=" ++ itoa (at_least_one (timeout / 2)))
    ∷ family_flag ipv6
    ∷ (lit "@" ++ server)
    ∷ domain
    ∷ lit "NS"
    ∷ []

-- `[\t\n\f\r ]`, the white space of a regular expression.
skip_space : Bytes → Bytes
skip_space [] = []
skip_space (c ∷ s) =
    let rest = skip_space s in
    if c == 9 || c == 10 || c == 12 || c == 13 || c == 32 then rest else c ∷ s

-- The loop of `digAuthoritative` over the lines. `flags:` with nothing behind it captures the
-- next line that is not blank.
aa_in_lines : Bool → List Bytes → Bool
aa_in_lines capturing [] = false
aa_in_lines true (line ∷ rest) =
    let blank = aa_in_lines true rest in
    let other = aa_in_lines false rest in
    if is_nil (skip_space line) then blank else contains (lit "aa") (fields line) || other
aa_in_lines false (line ∷ rest) =
    let text = trim_prefix (lit "flags:") (skip_space line) in
    let blank = aa_in_lines true rest in
    let other = aa_in_lines false rest in
    if not (has_prefix (lit "flags:") (skip_space line))
    then other
    else if is_nil (skip_space text)
    then blank
    else contains (lit "aa") (fields text) || other

unfoldable pub dig_authoritative : Bytes → Bool
unfolding aa_in_lines skip_space
dig_authoritative out = aa_in_lines false (split out b'\n')

-- What a run of dig gives: `isTimeout(ctx, err)`, and the text of the error if there is one.
pub record RunResult : Type 0 where
  pub stdout : Bytes
  pub stderr : Bytes
  pub timed_out : Bool
  pub failure : Option Bytes

abbrev pub Runner : Type 0
Runner = List Bytes → RunResult

module _ (dp : Dpdomain) (received : ReceivedRe) (run : Runner) where
  abbrev pub run_diags : RunResult → List TraceBlock → List Bytes → List Bytes
  run_diags res blocks diags =
      if res.timed_out then diags ++ lit "dig +trace timed out" ∷ [] else elim res.failure [
        | none ↦ diags
        | some e ↦
            if is_nil blocks
            then diags ++ (lit "dig: " ++ (e ++ (lit " " ++ trim_space res.stderr))) ∷ []
            else diags
      ]

  -- The part of `traceDelegation` that runs the trace and compares its answers.
  unfoldable pub traced : Bool → ℕ → Bytes → Delegation
  unfolding compare_delegation trace_args parse_trace
  traced ipv6 timeout domain =
      let res = run (trace_args ipv6 timeout domain) in
      let (blocks, diags) = parse_trace received res.stdout in
      compare_delegation dp blocks (run_diags res blocks diags) domain

  -- The parent's server answers the direct question authoritatively.
  unfoldable pub answers_for : Bytes → Bool → ℕ → Bytes → Bool
  unfolding auth_args dig_authoritative
  answers_for server ipv6 timeout domain =
      dig_authoritative (run (auth_args server ipv6 timeout domain)).stdout

  -- The part of `traceDelegation` behind the trace; the flag is `ctx.Err() == nil`.
  unfoldable pub ask_parent : Delegation → Bool → Bool → ℕ → Bytes → Delegation
  ask_parent d alive ipv6 timeout domain = elim d.status [
    | DelegationStatus.no_child_answer ↦
        if not (is_nil d.parent_server) && alive && answers_for d.parent_server ipv6 timeout domain
        then record d {
          status = DelegationStatus.same_servers;
          child_ns = d.parent_ns;
          child_server = d.parent_server;
        }
        else d
    | _ ↦ d
  ]

  -- `traceDelegation`
  unfoldable pub trace_delegation : Bool → Bool → ℕ → Bytes → Delegation
  unfolding ask_parent
  trace_delegation alive ipv6 timeout domain =
      ask_parent (traced ipv6 timeout domain) alive ipv6 timeout domain
