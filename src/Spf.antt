-- ===== src/Spf.antt =====
-- mail.go: the evaluation of an SPF policy. The evaluator is a state that is passed on; the walk over
-- includes and redirects is recursion on fuel, and `lookup` is the lookup cache.
pub mod Known
pub mod Terms
pub mod Prefixes
pub mod Enough
pub mod Grows
pub mod Growth
pub mod Result
pub mod Covered
pub mod FirstAll
pub mod Ending
pub mod State
use domaintest.Spf.State.{
  Evaluator, SpfResult, note_all, count_lookup, is_redirect, problem, problems_all, report, term,
  include_size, count_void, note_include, new_evaluator, opened, closed,
}
use domaintest.Prelude.{
  ltb, ◌==◌, if◌then◌else◌, length, is_nil, any, last_or, ℕ, zero, suc, ◌+◌, Bool, not, ◌&&◌, ◌||◌,
  List, [], ◌∷◌, ◌++◌,
}
use domaintest.Text.{Bytes, lit, ◌=?◌, contains, join}
use domaintest.Addr.{NetIp}
use domaintest.Names.{Dpdomain, Normalized, dns_name, bare_name}
use domaintest.Records.{Lookup, answered, has_records, udp_answer_octets}
use domaintest.Spf.Terms.{
  SpfTerm, parse_spf_terms, record_all, spf_target, spf_records, contains_percent,
}
use domaintest.Spf.Prefixes.{Netmask, redundant_ips}

-- What `descend` is to the functions that call it: from a target and a path, the `all` that the
-- target's evaluation ends with.
abbrev pub Descend : Type 0
Descend = Bytes → List Bytes → Evaluator → Bytes × Evaluator

abbrev pub last_domain : List Bytes → Bytes
last_domain path = last_or [] path

module _ (descend : Descend) where
  -- `mechanism`
  abbrev pub noted_include : Bytes → Bytes × Evaluator → Evaluator
  noted_include target (a, e) =
      if a =? lit "+all" then note_all (lit "+") (lit "include:" ++ target) e else e

  unfoldable pub mechanism : SpfTerm → List Bytes → Evaluator → Evaluator
  mechanism t path e =
      let target = spf_target t in
      if t.name =? lit "include" && not t.modifier
      then noted_include target (descend target path (count_lookup e))
      else if t.name =? lit "all" && not t.modifier
      then e
      else term t (last_domain path) e

  -- `redirect`
  abbrev pub redirected : Bytes → Bytes × Evaluator → (Bytes × Bytes) × Evaluator
  redirected target (a, e) =
      if not (is_nil a) then ((a, lit "redirect=" ++ target), e) else (([], []), e)

  unfoldable pub redirect : SpfTerm → List Bytes → Evaluator → (Bytes × Bytes) × Evaluator
  redirect t path e =
      let target = spf_target t in redirected target (descend target path (count_lookup e))

  -- The loop of `walk` over the terms, with `all` and `via`.
  unfoldable pub walk_terms :
      Bytes → List Bytes → List SpfTerm → Bytes × Bytes → Evaluator → (Bytes × Bytes) × Evaluator
  walk_terms own path [] found e = (found, e)
  walk_terms own path (t ∷ rest) found e =
      let (found', e') = redirect t path e in
      let followed = walk_terms own path rest found' e' in
      let ignored = walk_terms own path rest found e in
      let accounted = walk_terms own path rest found (mechanism t path e) in
      if not (is_redirect t) then accounted else if is_nil own then followed else ignored

module _ (net : NetIp) (mask : Netmask) (dp : Dpdomain) (lookup : Bytes → Bytes → Lookup) where
  -- The last check of `walk`.
  abbrev pub check_all : Bool → (Bytes × Bytes) × Evaluator → (Bytes × Bytes) × Evaluator
  check_all missing (found, e) =
      if missing
      then (found, problem (lit "record has no all mechanism or redirect (default neutral)") e)
      else (found, e)

  -- `walk`
  unfoldable pub walk : Descend → Bytes → List Bytes → Evaluator → (Bytes × Bytes) × Evaluator
  walk descend spf path e =
      let terms = parse_spf_terms spf in
      let own = record_all terms in
      let e' = problems_all (redundant_ips net mask terms (last_domain path)) e in
      check_all (length path == 1 && (is_nil own && not (any is_redirect terms)))
        (walk_terms descend own path terms (own, []) e')

  -- The end of `descend`, once the records of the target are there.
  abbrev pub walked :
      Descend → Bytes → List Bytes → Lookup → List Bytes → Evaluator → Bytes × Evaluator
  walked descend target path l [] e =
      ([], problem (lit "include:" ++ (target ++ lit " has no SPF record")) e)
  walked descend target path l (spf ∷ more) e =
      let ((a, via), e') = walk descend spf (path ++ target ∷ []) (include_size target l e) in
      (a, e')

  abbrev pub fetched : Descend → Bytes → List Bytes → Lookup → Evaluator → Bytes × Evaluator
  fetched descend target path l e =
      let no_spf = lit "include:" ++ (target ++ lit " has no SPF record") in
      if not (answered l)
      then (
        [],
        problem
            (lit "include:"
              ++ (target ++ lit " could not be checked: its TXT lookup did not complete"))
            e,
      )
      else if not (has_records l)
      then ([], problem no_spf (count_void e))
      else walked descend target path l (spf_records l.records) e

  abbrev pub entered : Descend → Bytes → List Bytes → Evaluator → Bytes × Evaluator
  entered descend target path e =
      if ltb 30 e.lookups || ltb 20 (length path)
      then ([], e)
      else fetched descend target path (lookup target (lit "TXT")) e

  abbrev pub resolved : Descend → Bytes → List Bytes → Evaluator → Normalized → Bytes × Evaluator
  resolved descend target path e (Normalized.invalid err) = (
    [],
    problem
        (lit "include:" ++ (target ++ (lit " is not a valid domain name (" ++ (err ++ lit ")")))) e,
  )
  resolved descend target path e (Normalized.name n) =
      if contains n.ascii path
      then (
        [],
        problem
            (lit "include loop "
              ++ (join path (lit " -> ")
                  ++ (lit " -> " ++ (n.ascii ++ lit " (permerror: SPF fails entirely)"))))
            e,
      )
      else entered descend n.ascii path (note_include n.ascii e)

  -- `descend` in terms of the calls that it makes itself.
  unfoldable pub descend_step : Descend → Descend
  unfolding walk
  descend_step descend target path e =
      if contains_percent target || is_nil target
      then ([], e)
      else resolved descend target path e (dns_name dp target)

  -- `descend` on fuel, of which 22 is enough.
  unfoldable pub descend : ℕ → Descend
  unfolding descend_step
  descend zero target path e = ([], e)
  descend (suc fuel) target path e = descend_step (descend fuel) target path e

  -- `evaluateSPF` on the SPF records found, the first of which is evaluated.
  unfoldable pub evaluate_records : Bytes → ℕ → List Bytes → SpfResult
  unfolding descend
  evaluate_records domain octets [] = report 0 0 [] new_evaluator
  evaluate_records domain octets (spf ∷ more) =
      let count = 1 + length more in
      let ((a, via), e) = walk (descend 22) spf (bare_name dp domain ∷ []) (opened count octets) in
      report count octets a (closed (a, via) e)

  -- `evaluateSPF`
  unfoldable pub evaluate_spf : Bytes → Lookup → SpfResult
  unfolding evaluate_records
  evaluate_spf domain txt =
      evaluate_records domain (udp_answer_octets txt) (spf_records txt.records)
