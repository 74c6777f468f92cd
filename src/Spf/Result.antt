-- ===== src/Spf/Result.antt =====
-- What the result of an SPF evaluation says of the evaluation.
use domaintest.Prelude.{
  ltb, if◌then◌else◌, length, is_nil, take, ℕ, ◌+◌, ◌≡◌, refl, ◌∙◌, Bool, true, false, not, ◌&&◌,
  List, [], ◌∷◌, arith,
}
use domaintest.Spf.Known.{IsKnown, limit-IsKnown, fixed-IsKnown, AreKnown}
use domaintest.Spf.Growth.{walk-Grows, descend-Grows}
use domaintest.Spf.Terms.{spf_records}
use domaintest.Spf.Grows.{
  problem-record, Grows-refl, Grows-trans, Grows, problem-Grows, Grows-if, apex_size-Grows,
  note_all-Grows,
}
use domaintest.Text.Laws.{IsDistinct, contains-append, =?_refl}
use domaintest.Text.{Bytes, contains}
use domaintest.Addr.{NetIp}
use domaintest.Names.{Dpdomain, bare_name}
use domaintest.Records.{Lookup, udp_answer_octets}
use domaintest.Spf.Prefixes.{Netmask}
use domaintest.Spf.{evaluate_spf, evaluate_records, walk, descend}
use domaintest.Spf.State.{
  Evaluator, SpfResult, check_limits, problem, lookup_limit_text, problem_if, void_limit_text,
  multiple_text, closed, note_all, new_evaluator, opened,
}

problem-contains : (p : Bytes) (e : Evaluator) → contains p (problem p e).problems ≡ true
unfolding contains
problem-contains p e =
    rw (problem-record p e) (ground (arith, contains-append p e.problems (p ∷ []), =?_refl p))

problem_if-Grows : (b : Bool) (p : Bytes) (e : Evaluator) → IsKnown p → Grows e (problem_if b p e)
problem_if-Grows true p e h = problem-Grows p e h
problem_if-Grows false p e h = Grows-refl e

problem_if-contains :
    (b : Bool) (p : Bytes) (e : Evaluator)
    → (b && not (contains p (problem_if b p e).problems)) ≡ false
problem_if-contains true p e = rw (problem-contains p e) refl
problem_if-contains false p e = refl

problem_if-counts :
    (b : Bool) (p : Bytes) (e : Evaluator)
    → ((problem_if b p e).lookups ≡ e.lookups) × ((problem_if b p e).void ≡ e.void)
problem_if-counts true p e = rw (problem-record p e) (refl, refl)
problem_if-counts false p e = (refl, refl)

kept :
    {e e' : Evaluator} (b : Bool) (p : Bytes)
    → Grows e e'
    → (b && not (contains p e.problems)) ≡ false
    → (b && not (contains p e'.problems)) ≡ false
kept true p g h = let q = g.problems p (ground (arith, h)) in ground (arith, q)
kept false p g h = refl

-- The counts are left as they are, and one above its limit is among the problems.
check_limits_lem :
    (e : Evaluator)
    → Grows e (check_limits e)
      × ((ltb 10 e.lookups
            && not (contains (lookup_limit_text e.lookups) (check_limits e).problems))
          ≡ false)
      × ((ltb 2 e.void && not (contains (void_limit_text e.void) (check_limits e).problems))
          ≡ false)
      × ((check_limits e).lookups ≡ e.lookups)
      × ((check_limits e).void ≡ e.void)
unfolding check_limits
check_limits_lem e =
    let p = lookup_limit_text e.lookups in
    let q = void_limit_text e.void in
    let e' = problem_if (ltb 10 e.lookups) p e in
    let g = problem_if-Grows (ltb 2 e.void) q e' (limit-IsKnown e.void).1 in
    let (a, b) = problem_if-counts (ltb 10 e.lookups) p e in
    let (c, d) = problem_if-counts (ltb 2 e.void) q e' in
    (
      Grows-trans (problem_if-Grows (ltb 10 e.lookups) p e (limit-IsKnown e.lookups).0) g,
      kept (ltb 10 e.lookups) p g (problem_if-contains (ltb 10 e.lookups) p e),
      problem_if-contains (ltb 2 e.void) q e',
      c ∙ a,
      d ∙ b,
    )

-- A count above its limit is among the problems.
abbrev pub SaysLimits : SpfResult → Type 0
SaysLimits r =
    ((ltb 10 r.lookups && not (contains (lookup_limit_text r.lookups) r.problems)) ≡ false)
    × ((ltb 2 r.void_lookups && not (contains (void_limit_text r.void_lookups) r.problems)) ≡ false)
    × ((ltb 1 r.count && not (contains multiple_text r.problems)) ≡ false)

closed_lem :
    (a via : Bytes) (e : Evaluator)
    → Grows e (closed (a, via) e)
      × ((ltb 10 (closed (a, via) e).lookups
            && not (
                contains
                  (lookup_limit_text (closed (a, via) e).lookups)
                  (closed (a, via) e).problems))
          ≡ false)
      × ((ltb 2 (closed (a, via) e).void
            && not
                (contains (void_limit_text (closed (a, via) e).void) (closed (a, via) e).problems))
          ≡ false)
closed_lem a via e =
    let e' = if not (is_nil a) then note_all (take 1 a) via e else e in
    let g : Grows e e' =
      Grows-if (not (is_nil a)) (note_all-Grows (take 1 a) via e) (Grows-refl e) in
    let (g', s, v, p, q) = check_limits_lem e' in (Grows-trans g g', rw p s, rw q v)

opened_lem :
    (count octets : ℕ)
    → Grows new_evaluator (opened count octets)
      × ((ltb 1 count && not (contains multiple_text (opened count octets).problems)) ≡ false)
opened_lem count octets =
    let e = problem_if (ltb 1 count) multiple_text new_evaluator in
    let g = apex_size-Grows octets e in
    (
      Grows-trans (problem_if-Grows (ltb 1 count) multiple_text new_evaluator fixed-IsKnown.2) g,
      kept (ltb 1 count) multiple_text g
          (problem_if-contains (ltb 1 count) multiple_text new_evaluator),
    )

-- What a result says.
abbrev pub IsReported : SpfResult → Type 0
IsReported r = IsDistinct r.problems × IsDistinct r.includes × SaysLimits r

module _ (net : NetIp) (mask : Netmask) (dp : Dpdomain) (lookup : Bytes → Bytes → Lookup) where
  -- From the new evaluator to the one that the result is made of.
  evaluated-Grows :
      (domain : Bytes) (octets count : ℕ) (spf : Bytes)
      → let r =
          walk net mask dp lookup
            (descend net mask dp lookup 22)
            spf
            (bare_name dp domain ∷ [])
            (opened count octets) in
        Grows new_evaluator (closed r.0 r.1)
  evaluated-Grows domain octets count spf =
      let e = opened count octets in
      let ((a, via), e') =
        walk net mask dp lookup (descend net mask dp lookup 22) spf (bare_name dp domain ∷ []) e in
      Grows-trans (opened_lem count octets).0 (
        Grows-trans
          (walk-Grows net mask dp lookup (descend net mask dp lookup 22)
            (descend-Grows net mask dp lookup 22) spf (bare_name dp domain ∷ []) e)
          (closed_lem a via e').0)

  evaluate_records-AreKnown :
      (domain : Bytes) (octets : ℕ) (spfs : List Bytes)
      → AreKnown (evaluate_records net mask dp lookup domain octets spfs).problems
  unfolding evaluate_records
  evaluate_records-AreKnown domain octets [] = tt
  evaluate_records-AreKnown domain octets (spf ∷ more) =
      (evaluated-Grows domain octets (1 + length more) spf).known tt

  pub evaluate_spf-AreKnown :
      (domain : Bytes) (txt : Lookup)
      → AreKnown (evaluate_spf net mask dp lookup domain txt).problems
  evaluate_spf-AreKnown domain txt =
      unfold evaluate_spf in
      evaluate_records-AreKnown domain (udp_answer_octets txt) (spf_records txt.records)
