-- ===== src/Spf/Enough.antt =====
-- The fuel of the walk over includes and redirects is enough, since a path longer than 20 ends it.
use domaintest.Prelude.{
  ltb, leb, Bool-cases, length, length-append, ℕ, zero, suc, ◌+◌, ◌≤◌, ◌≡◌, refl, sym, ap, ◌∙◌, inl,
  inr, false, List, [], ◌∷◌, ◌++◌, arith,
}
use domaintest.Text.{Bytes, lit}
use domaintest.Addr.{NetIp}
use domaintest.Names.{Dpdomain, Normalized, dns_name}
use domaintest.Records.{Lookup}
use domaintest.Spf.Terms.{SpfTerm, spf_target, parse_spf_terms, record_all, spf_records}
use domaintest.Spf.Prefixes.{Netmask, redundant_ips}
use domaintest.Spf.{
  Descend, mechanism, redirect, walk_terms, walk, walked, entered, descend_step, descend, resolved,
  last_domain,
}
use domaintest.Spf.State.{Evaluator, count_lookup, include_size, problems_all, note_include}

-- Two ways to descend agree on one path.
abbrev AgreeAt : Descend → Descend → List Bytes → Type 0
AgreeAt f g path = (target : Bytes) (e : Evaluator) → f target path e ≡ g target path e

module _ (f g : Descend) (path : List Bytes) (agree : AgreeAt f g path) where
  mechanism-agree : (t : SpfTerm) (e : Evaluator) → mechanism f t path e ≡ mechanism g t path e
  unfolding mechanism
  mechanism-agree t e = rw (agree (spf_target t) (count_lookup e)) refl

  redirect-agree : (t : SpfTerm) (e : Evaluator) → redirect f t path e ≡ redirect g t path e
  unfolding redirect
  redirect-agree t e = rw (agree (spf_target t) (count_lookup e)) refl

  walk_terms-agree :
      (own : Bytes) (terms : List SpfTerm) (found : Bytes × Bytes) (e : Evaluator)
      → walk_terms f own path terms found e ≡ walk_terms g own path terms found e
  unfolding walk_terms
  walk_terms-agree own [] found e = refl
  walk_terms-agree own (t ∷ rest) found e =
      rw
        (
          redirect-agree t e,
          mechanism-agree t e,
          walk_terms-agree own rest (redirect g t path e).0 (redirect g t path e).1,
          walk_terms-agree own rest found e,
          walk_terms-agree own rest found (mechanism g t path e),
        )
        refl

module _ (net : NetIp) (mask : Netmask) (dp : Dpdomain) (lookup : Bytes → Bytes → Lookup) where
  walk-agree :
      (f g : Descend) (spf : Bytes) (path : List Bytes) (e : Evaluator)
      → AgreeAt f g path
      → walk net mask dp lookup f spf path e ≡ walk net mask dp lookup g spf path e
  unfolding walk
  walk-agree f g spf path e agree =
      let terms = parse_spf_terms spf in
      let own = record_all terms in
      let e' = problems_all (redundant_ips net mask terms (last_domain path)) e in
      rw (walk_terms-agree f g path agree own terms (own, []) e') refl

  module _ (f g : Descend) (path : List Bytes)
      (agree : ltb 20 (length path) ≡ false → (x : Bytes) → AgreeAt f g (path ++ x ∷ [])) where
    walked-agree :
        (target : Bytes) (l : Lookup) (spfs : List Bytes) (e : Evaluator)
        → ltb 20 (length path) ≡ false
        → walked net mask dp lookup f target path l spfs e
          ≡ walked net mask dp lookup g target path l spfs e
    walked-agree target l [] e h = refl
    walked-agree target l (spf ∷ more) e h =
        ap (λ r. (r.0.0, r.1))
          (walk-agree f g spf (path ++ target ∷ []) (include_size target l e) (agree h target))

    entered-agree :
        (target : Bytes) (e : Evaluator)
        → entered net mask dp lookup f target path e ≡ entered net mask dp lookup g target path e
    entered-agree target e = elim (Bool-cases (ltb 20 (length path))) [
      | inl h ↦ ground (arith, h)
      | inr h ↦
          let l = lookup target (lit "TXT") in
          rw (walked-agree target l (spf_records l.records) e h) refl
    ]

    resolved-agree :
        (target : Bytes) (e : Evaluator) (n : Normalized)
        → resolved net mask dp lookup f target path e n
          ≡ resolved net mask dp lookup g target path e n
    resolved-agree target e (Normalized.invalid err) = refl
    resolved-agree target e (Normalized.name n) =
        rw (entered-agree n.ascii (note_include n.ascii e)) refl

    descend_step-agree :
        AgreeAt (descend_step net mask dp lookup f) (descend_step net mask dp lookup g) path
    descend_step-agree target e =
        unfold descend_step in rw (resolved-agree target e (dns_name dp target)) refl

  pub descend-suc :
      (n : ℕ) (target : Bytes) (path : List Bytes) (e : Evaluator)
      → descend net mask dp lookup (suc n) target path e
        ≡ descend_step net mask dp lookup (descend net mask dp lookup n) target path e
  unfolding descend
  descend-suc n target path e = refl

  length-step : (path : List Bytes) (x : Bytes) → length (path ++ x ∷ []) ≡ length path + 1
  length-step path x = length-append path (x ∷ [])

  -- One more unit of fuel changes nothing once there is one for each step that the path may grow.
  descend-more :
      (m : ℕ) (path : List Bytes)
      → 21 ≤ m + length path
      → AgreeAt (descend net mask dp lookup (suc m)) (descend net mask dp lookup (suc (suc m))) path
  descend-more zero path h target e =
      rw (descend-suc 0 target path e, descend-suc 1 target path e)
        (descend_step-agree (descend net mask dp lookup 0) (descend net mask dp lookup 1) path
          (λ short. absurd (ground (arith, h, short))) target e)
  descend-more (suc m) path h target e =
      rw (descend-suc (suc m) target path e, descend-suc (suc (suc m)) target path e)
        (descend_step-agree (descend net mask dp lookup (suc m))
          (descend net mask dp lookup (suc (suc m))) path
          (λ short x. descend-more m (path ++ x ∷ []) (omega (arith, h, length-step path x))) target
          e)

  descend-from :
      (m : ℕ) (path : List Bytes)
      → 21 ≤ m
      → AgreeAt (descend net mask dp lookup (suc m)) (descend net mask dp lookup 22) path
  descend-from zero path h target e = absurd (omega (arith, h))
  descend-from (suc m) path h target e = elim (Bool-cases (leb 21 m)) [
    | inl le ↦
        sym (descend-more m path (ground (arith, le)) target e)
        ∙ descend-from m path (ground (arith, le)) target e
    | inr gt ↦ let q : m ≡ 20 = ground (arith, h, gt) in rw q refl
  ]

  -- Descending with fuel 22 or more satisfies the equation of the source, in which there is no fuel,
  -- for any target, path and state of the evaluator, and what it gives is what fuel 22 gives.
  pub descend_lem :
      (fuel : ℕ) (target : Bytes) (path : List Bytes) (e : Evaluator)
      → 22 ≤ fuel
      → (descend net mask dp lookup fuel target path e
          ≡ descend_step net mask dp lookup (descend net mask dp lookup fuel) target path e)
        × (descend net mask dp lookup fuel target path e
            ≡ descend net mask dp lookup 22 target path e)
  descend_lem zero target path e h = absurd (omega (arith, h))
  descend_lem (suc m) target path e h = (
    descend-more m path (omega (arith, h)) target e ∙ descend-suc (suc m) target path e,
    descend-from m path (omega (arith, h)) target e,
  )
