-- ===== src/Spf/Ending.antt =====
-- The `all` that ends the evaluation of a record.
use domaintest.Spf.FirstAll.{IsFirstAll, record_all-IsFirstAll}
use domaintest.Prelude.{
  ◌==◌, if◌then◌else◌, Bool-cases, length, is_nil, any, keep, ◌≡◌, refl, ap, ◌⊎◌, inl, inr, Bool,
  true, false, not, ◌&&◌, List, [], ◌∷◌, ◌++◌, arith,
}
use domaintest.Text.{Bytes, lit}
use domaintest.Addr.{NetIp}
use domaintest.Names.{Dpdomain}
use domaintest.Records.{Lookup}
use domaintest.Spf.Terms.{SpfTerm, parse_spf_terms, record_all}
use domaintest.Spf.Prefixes.{Netmask, redundant_ips}
use domaintest.Spf.{Descend, walk_terms, mechanism, redirect, walk, last_domain}
use domaintest.Spf.State.{Evaluator, is_redirect, problems_all, problem}

abbrev pub is_mechanism : SpfTerm → Bool
is_mechanism t = not (is_redirect t)

module _ (f : Descend) where
  -- The evaluator after the terms, each accounted for as a mechanism.
  unfoldable pub accounted : List Bytes → List SpfTerm → Evaluator → Evaluator
  accounted path [] e = e
  accounted path (t ∷ rest) e = accounted path rest (mechanism f t path e)

  -- The evaluator after the terms, with each redirect followed.
  abbrev pub after_term : List Bytes → SpfTerm → Evaluator → Evaluator
  after_term path t e = if is_redirect t then (redirect f t path e).1 else mechanism f t path e

  unfoldable pub followed : List Bytes → List SpfTerm → Evaluator → Evaluator
  followed path [] e = e
  followed path (t ∷ rest) e = followed path rest (after_term path t e)

  -- What was found before, and the terms but for the redirects accounted for.
  walk_terms_lem :
      (own : Bytes) (path : List Bytes) (terms : List SpfTerm) (found : Bytes × Bytes)
      (e : Evaluator)
      → ((is_nil own && any is_redirect terms) ≡ false)
      → walk_terms f own path terms found e ≡ (found, accounted path (keep is_mechanism terms) e)
  unfolding walk_terms accounted
  walk_terms_lem own path [] found e h = refl
  walk_terms_lem own path (t ∷ rest) found e h = ground (
    arith,
    h,
    walk_terms_lem own path rest found (mechanism f t path e),
    walk_terms_lem own path rest found e,
  )

  followed-accounted :
      (path : List Bytes) (terms : List SpfTerm) (e : Evaluator)
      → any is_redirect terms ≡ false
      → accounted path (keep is_mechanism terms) e ≡ followed path terms e
  unfolding accounted followed
  followed-accounted path [] e h = refl
  followed-accounted path (t ∷ rest) e h =
      ground (arith, h, followed-accounted path rest (mechanism f t path e))

  -- Without an `all` the result is what the last redirect gave, followed at its place among the
  -- terms; each term before and behind it counts.
  abbrev pub IsRedirected :
      (Bytes × Bytes) × Evaluator → List Bytes → List SpfTerm → Evaluator → Type 0
  IsRedirected result path terms e =
      (t : SpfTerm) × (pre : List SpfTerm) × (post : List SpfTerm) × (terms ≡ pre ++ (t ∷ post))
      × (is_redirect t ≡ true)
      × (any is_redirect post ≡ false)
      × (result ≡ ((redirect f t path (followed path pre e)).0, followed path terms e))

  walk_terms-cons :
      (path : List Bytes) (t : SpfTerm) (rest : List SpfTerm) (found : Bytes × Bytes)
      (e : Evaluator)
      → walk_terms f [] path (t ∷ rest) found e
        ≡ walk_terms f [] path rest
            (if is_redirect t then (redirect f t path e).0 else found)
            (after_term path t e)
  unfolding walk_terms
  walk_terms-cons path t rest found e = ground arith

  IsRedirected-cons :
      (path : List Bytes) (t : SpfTerm) (rest : List SpfTerm) (e : Evaluator)
      (result : (Bytes × Bytes) × Evaluator)
      → IsRedirected result path rest (after_term path t e)
      → IsRedirected result path (t ∷ rest) e
  unfolding followed
  IsRedirected-cons path t rest e result (u, pre, post, q, s, n, z) =
      (u, t ∷ pre, post, ap (◌∷◌ t) q, s, n, z)

  IsRedirected-last :
      (path : List Bytes) (t : SpfTerm) (rest : List SpfTerm) (found : Bytes × Bytes)
      (e : Evaluator)
      → is_redirect t ≡ true
      → any is_redirect rest ≡ false
      → IsRedirected (walk_terms f [] path (t ∷ rest) found e) path (t ∷ rest) e
  unfolding followed
  IsRedirected-last path t rest found e r last =
      let start = walk_terms-cons path t rest found e in
      let next = walk_terms_lem [] path rest (redirect f t path e).0 (redirect f t path e).1 last in
      let count = followed-accounted path rest (redirect f t path e).1 last in
      (t, [], rest, refl, r, last, ground (arith, r, start, next, count))

  walk_terms-IsRedirected :
      (path : List Bytes) (terms : List SpfTerm) (found : Bytes × Bytes) (e : Evaluator)
      → any is_redirect terms ≡ true
      → IsRedirected (walk_terms f [] path terms found e) path terms e
  walk_terms-IsRedirected path [] found e h = absurd (ground arith)
  walk_terms-IsRedirected path (t ∷ rest) found e h = elim (Bool-cases (any is_redirect rest)) [
    | inl more ↦ rw (walk_terms-cons path t rest found e) (
        IsRedirected-cons path t rest e _ (
          walk_terms-IsRedirected path rest
            (if is_redirect t then (redirect f t path e).0 else found) (after_term path t e) more))
    | inr last ↦ IsRedirected-last path t rest found e (ground (arith, h, last)) last
  ]

module _ (net : NetIp) (mask : Netmask) (dp : Dpdomain) (lookup : Bytes → Bytes → Lookup) where
  -- The record that is evaluated for the name checked itself has no `all` and no redirect.
  abbrev pub noted_end : List Bytes → Bytes → Evaluator → Evaluator
  noted_end path own e =
      if length path == 1 && is_nil own
      then problem (lit "record has no all mechanism or redirect (default neutral)") e
      else e

  abbrev pub IsWalked : Descend → Bytes → List Bytes → Evaluator → Type 0
  IsWalked f spf path e =
      let terms = parse_spf_terms spf in
      let own = record_all terms in
      let result = walk net mask dp lookup f spf path e in
      let start = problems_all (redundant_ips net mask terms (last_domain path)) e in
      let counted = noted_end path own (accounted f path (keep is_mechanism terms) start) in
      IsFirstAll own terms
      × (((own ≡ []) × (any is_redirect terms ≡ true) × IsRedirected f result path terms start)
          ⊎ (((is_nil own && any is_redirect terms) ≡ false) × (result ≡ ((own, []), counted))))

  walk-redirected :
      (f : Descend) (spf : Bytes) (path : List Bytes) (e : Evaluator)
      → record_all (parse_spf_terms spf) ≡ []
      → any is_redirect (parse_spf_terms spf) ≡ true
      → walk net mask dp lookup f spf path e
        ≡ walk_terms f [] path
            (parse_spf_terms spf)
            ([], [])
            (problems_all (redundant_ips net mask (parse_spf_terms spf) (last_domain path)) e)
  unfolding walk
  walk-redirected f spf path e q r = rw (q, r) (ground arith)

  walk-ignoring :
      (f : Descend) (spf : Bytes) (path : List Bytes) (e : Evaluator)
      → let terms = parse_spf_terms spf in
        let own = record_all terms in
        let start = problems_all (redundant_ips net mask terms (last_domain path)) e in
        ((is_nil own && any is_redirect terms) ≡ false)
        → walk net mask dp lookup f spf path e
          ≡ ((own, []), noted_end path own (accounted f path (keep is_mechanism terms) start))
  unfolding walk
  walk-ignoring f spf path e h =
      let terms = parse_spf_terms spf in
      let own = record_all terms in
      let start = problems_all (redundant_ips net mask terms (last_domain path)) e in
      ground (arith, h, walk_terms_lem f own path terms (own, []) start h)

  -- A record with an `all` mechanism ends with the first of them: its redirects are ignored, with
  -- no lookup counted and no problem found for them, and its other terms are accounted for in
  -- their order. One without `all` and redirect ends with none, which is a problem for the name
  -- checked itself. And else each redirect is followed at its place and the last one decides.
  pub walk_lem :
      (f : Descend) (spf : Bytes) (path : List Bytes) (e : Evaluator) → IsWalked f spf path e
  walk_lem f spf path e =
      let terms = parse_spf_terms spf in
      let own = record_all terms in
      let start = problems_all (redundant_ips net mask terms (last_domain path)) e in
      (
        record_all-IsFirstAll terms,
        elim (Bool-cases (is_nil own && any is_redirect terms)) [
          | inl h ↦
              let q : own ≡ [] = ground (arith, h) in
              let r : any is_redirect terms ≡ true = ground (arith, h) in
              inl (
                q,
                r,
                rw (walk-redirected f spf path e q r)
                    (walk_terms-IsRedirected f path terms ([], []) start r),
              )
          | inr h ↦ inr (h, walk-ignoring f spf path e h)
        ],
      )
