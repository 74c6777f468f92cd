-- ===== src/Spf/Growth.antt =====
-- A whole evaluation only ever adds.
use domaintest.Prelude.{
  ltb, ◌==◌, length, is_nil, any, ℕ, zero, suc, not, ◌&&◌, ◌||◌, List, [], ◌∷◌, ◌++◌,
}
use domaintest.Spf.Known.{
  redundant_ips-AreKnown, include_missing-IsKnown, include_unchecked-IsKnown,
  include_invalid-IsKnown, fixed-IsKnown, loop-IsKnown,
}
use domaintest.Spf.Enough.{descend-suc}
use domaintest.Names.{Dpdomain, Normalized, dns_name}
use domaintest.Spf.Prefixes.{Netmask, redundant_ips}
use domaintest.Addr.{NetIp}
use domaintest.Spf.Terms.{
  SpfTerm, spf_target, parse_spf_terms, contains_percent, record_all, spf_records,
}
use domaintest.Records.{Lookup, answered, has_records}
use domaintest.Text.{Bytes, contains, ◌=?◌, lit}
use domaintest.Spf.{
  Descend, mechanism, redirect, walk_terms, last_domain, walk, walked, entered, descend_step,
  descend, resolved,
}
use domaintest.Spf.State.{
  Evaluator, note_include, count_lookup, count_void, problems_all, include_size, is_redirect,
}
use domaintest.Spf.Grows.{
  Grows, Grows-trans, Grows-if, Grows-if_result, Grows-refl, problem-Grows, count_lookup-Grows,
  note_all-Grows, problems_all-Grows, include_size-Grows, count_void-Grows, note_include-Grows,
  term-Grows,
}

abbrev Growing : Descend → Type 0
Growing f = (target : Bytes) (path : List Bytes) (e : Evaluator) → Grows e (f target path e).1

module _ (f : Descend) (growing : Growing f) where
  called-Grows :
      (target : Bytes) (path : List Bytes) (e : Evaluator)
      → Grows e (f target path (count_lookup e)).1
  called-Grows target path e =
      Grows-trans (count_lookup-Grows e) (growing target path (count_lookup e))

  mechanism-Grows :
      (t : SpfTerm) (path : List Bytes) (e : Evaluator) → Grows e (mechanism f t path e)
  unfolding mechanism
  mechanism-Grows t path e =
      let target = spf_target t in
      let r = f target path (count_lookup e) in
      let step = called-Grows target path e in
      Grows-if (t.name =? lit "include" && not t.modifier)
        (Grows-if (r.0 =? lit "+all")
          (Grows-trans step (note_all-Grows (lit "+") (lit "include:" ++ target) r.1)) step)
        (Grows-if (t.name =? lit "all" && not t.modifier) (Grows-refl e)
          (term-Grows t (last_domain path) e))

  redirect-Grows :
      (t : SpfTerm) (path : List Bytes) (e : Evaluator) → Grows e (redirect f t path e).1
  unfolding redirect
  redirect-Grows t path e =
      let step = called-Grows (spf_target t) path e in
      Grows-if_result (not (is_nil (f (spf_target t) path (count_lookup e)).0)) _ _ step step

  walk_terms-Grows :
      (own : Bytes) (path : List Bytes) (terms : List SpfTerm) (found : Bytes × Bytes)
      (e : Evaluator)
      → Grows e (walk_terms f own path terms found e).1
  unfolding walk_terms
  walk_terms-Grows own path [] found e = Grows-refl e
  walk_terms-Grows own path (t ∷ rest) found e =
      let (found', e') = redirect f t path e in
      Grows-if_result (not (is_redirect t)) _ _
        (Grows-trans (mechanism-Grows t path e)
          (walk_terms-Grows own path rest found (mechanism f t path e)))
        (Grows-if_result (is_nil own) _ _
          (Grows-trans (redirect-Grows t path e) (walk_terms-Grows own path rest found' e'))
          (walk_terms-Grows own path rest found e))

module _ (net : NetIp) (mask : Netmask) (dp : Dpdomain) (lookup : Bytes → Bytes → Lookup) where
  module _ (f : Descend) (growing : Growing f) where
    pub walk-Grows :
        (spf : Bytes) (path : List Bytes) (e : Evaluator)
        → Grows e (walk net mask dp lookup f spf path e).1
    unfolding walk
    walk-Grows spf path e =
        let terms = parse_spf_terms spf in
        let own = record_all terms in
        let named = redundant_ips net mask terms (last_domain path) in
        let (found, e') = walk_terms f own path terms (own, []) (problems_all named e) in
        let step : Grows e e' =
          Grows-trans
            (problems_all-Grows named e (redundant_ips-AreKnown net mask terms (last_domain path)))
            (walk_terms-Grows f growing own path terms (own, []) (problems_all named e)) in
        Grows-if_result (length path == 1 && (is_nil own && not (any is_redirect terms))) _ _
          (Grows-trans step (problem-Grows _ e' fixed-IsKnown.1)) step

    walked-Grows :
        (target : Bytes) (path : List Bytes) (l : Lookup) (spfs : List Bytes) (e : Evaluator)
        → Grows e (walked net mask dp lookup f target path l spfs e).1
    walked-Grows target path l [] e = problem-Grows _ e (include_missing-IsKnown target)
    walked-Grows target path l (spf ∷ more) e =
        Grows-trans (include_size-Grows target l e)
          (walk-Grows spf (path ++ target ∷ []) (include_size target l e))

    entered-Grows :
        (target : Bytes) (path : List Bytes) (e : Evaluator)
        → Grows e (entered net mask dp lookup f target path e).1
    entered-Grows target path e =
        let l = lookup target (lit "TXT") in
        Grows-if_result (ltb 30 e.lookups || ltb 20 (length path)) _ _ (Grows-refl e) (
          Grows-if_result (not (answered l)) _ _
            (problem-Grows _ e (include_unchecked-IsKnown target))
            (Grows-if_result (not (has_records l)) _ _
              (Grows-trans (count_void-Grows e)
                (problem-Grows _ (count_void e) (include_missing-IsKnown target)))
              (walked-Grows target path l (spf_records l.records) e)))

    resolved-Grows :
        (target : Bytes) (path : List Bytes) (e : Evaluator) (n : Normalized)
        → Grows e (resolved net mask dp lookup f target path e n).1
    resolved-Grows target path e (Normalized.invalid err) =
        problem-Grows _ e (include_invalid-IsKnown target _)
    resolved-Grows target path e (Normalized.name n) =
        Grows-if_result (contains n.ascii path) _ _ (problem-Grows _ e (loop-IsKnown _)) (
          Grows-trans (note_include-Grows n.ascii e)
            (entered-Grows n.ascii path (note_include n.ascii e)))

    descend_step-Grows : Growing (descend_step net mask dp lookup f)
    descend_step-Grows target path e =
        unfold descend_step in
        Grows-if_result (contains_percent target || is_nil target) _ _ (Grows-refl e)
          (resolved-Grows target path e (dns_name dp target))

  pub descend-Grows : (fuel : ℕ) → Growing (descend net mask dp lookup fuel)
  descend-Grows zero target path e = unfold descend in Grows-refl e
  descend-Grows (suc fuel) target path e =
      rw (descend-suc net mask dp lookup fuel target path e)
        (descend_step-Grows (descend net mask dp lookup fuel) (descend-Grows fuel) target path e)
