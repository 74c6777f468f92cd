-- ===== src/Mail/Mx.antt =====
-- mail.go: the check of the MX targets. They are checked in parallel and do not depend on each other.
use domaintest.Prelude.{
  ltb, ◌==◌, if◌then◌else◌, length, is_nil, ℤ, ℕ, ◌+◌, Bool, true, false, not, ◌&&◌, ◌||◌, Option,
  none, some, List, [], ◌∷◌, ◌++◌,
}
use domaintest.Text.Numbers.{atoi}
use domaintest.Text.{Bytes, lit, to_lower, ◌=?◌, fields}
use domaintest.Addr.{NetIp}
use domaintest.Names.{Dpdomain, Normalized, host_or_ip}
use domaintest.Records.{Lookup, answered, addrs, is_nxdomain}

-- `MXCheck`
pub record MxCheck : Type 0 where
  pub host : Bytes
  pub pref : ℤ
  pub addresses : ℕ
  pub cname : Bool
  pub ip_literal : Bool
  pub unresolved : Bool
  pub problems : List Bytes

-- `mxUnresolvedProblem` and the other problems.
unfoldable pub mx_unresolved_problem : Bytes
mx_unresolved_problem = lit "MX target lookup did not complete, so the target was not checked"

abbrev pub add_problem : Bytes → MxCheck → MxCheck
add_problem p c = record c { problems = c.problems ++ p ∷ [] }

-- One record, `10 host.`; another number of fields is no record.
unfoldable pub new_check : Bool → List Bytes → Option MxCheck
new_check several (pref ∷ host ∷ []) =
    let name = to_lower host in
    some (record {
      host = name;
      pref = (atoi pref).0;
      addresses = 0;
      cname = false;
      ip_literal = false;
      unresolved = false;
      problems =
          if name =? lit "." && several then lit "null MX mixed with real MX records" ∷ [] else [];
    })
new_check several _ = none

module _ (net : NetIp) (dp : Dpdomain) (lookup : Bytes → Bytes → Lookup) where
  -- `checkMXTarget`
  unfoldable pub judge_target : MxCheck → Lookup → Lookup → MxCheck
  judge_target c a aaaa =
      if not (answered a) || not (answered aaaa)
      then record c { unresolved = true; problems = c.problems ++ mx_unresolved_problem ∷ [] }
      else if is_nxdomain a.status
      then add_problem (lit "MX target does not exist") c
      else if c.addresses == 0
      then add_problem (lit "MX target has no address") c
      else c

  unfoldable pub resolve_target : MxCheck → Lookup → Lookup → MxCheck
  unfolding judge_target
  resolve_target c a aaaa =
      let c' = record c { addresses = length (addrs net a) + length (addrs net aaaa) } in
      judge_target
        (if not (is_nil a.cname) || not (is_nil aaaa.cname)
          then record c' {
            cname = true;
            problems = c'.problems ++ lit "MX target is a CNAME (RFC 2181 §10.3)" ∷ [];
          }
          else c')
        a aaaa

  unfoldable pub normalized_target : MxCheck → Normalized → MxCheck
  unfolding resolve_target
  normalized_target c (Normalized.invalid err) =
      add_problem (lit "MX target is not a valid hostname: " ++ err) c
  normalized_target c (Normalized.name n) =
      if n.is_ip
      then record c {
        ip_literal = true;
        problems = c.problems ++ lit "MX target is an IP literal (invalid, RFC 2181 §10.3)" ∷ [];
      }
      else resolve_target c (lookup c.host (lit "A")) (lookup c.host (lit "AAAA"))

  unfoldable pub check_mx_target : MxCheck → MxCheck
  unfolding normalized_target
  check_mx_target c = normalized_target c (host_or_ip dp c.host)

  -- The loops of `checkMX`.
  unfoldable pub checked : Option MxCheck → List MxCheck → List MxCheck
  unfolding check_mx_target
  checked none rest = rest
  checked (some c) rest = (if c.host =? lit "." then c else check_mx_target c) ∷ rest

  unfoldable pub check_records : Bool → List Bytes → List MxCheck
  unfolding checked
  check_records several [] = []
  check_records several (r ∷ rest) =
      checked (new_check several (fields r)) (check_records several rest)

  unfoldable pub check_mx : Lookup → List MxCheck
  unfolding check_records new_check
  check_mx mx = check_records (ltb 1 (length mx.records)) mx.records
