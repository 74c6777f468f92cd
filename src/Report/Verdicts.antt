-- ===== src/Report/Verdicts.antt =====
-- What the report of a reserved name, and of a zone that cannot be reached, comes to.
use domaintest.Prelude.{
  is_nil, any, any-append, All, All-append, ◌≡◌, refl, ap, ◌∙◌, ◌↔◌, Bool, true, false, not, ◌||◌,
  Option, List, [], ◌∷◌, ◌++◌, arith,
}
use domaintest.Report.Zone.{
  unreached, reachability_findings, deadline_findings, rdap_findings, registered_statuses,
  zone_unreachable,
}
use domaintest.Text.Sort.{insert, sort_strings}
use domaintest.Findings.Mail.{each}
use domaintest.Codes.{Code}
use domaintest.Findings.{Finding, fail}
use domaintest.Report.{Report, Reach, is_unreachable, RdapReport}
use domaintest.Report.Build.{
  Outside, reserved_name_findings, findings_of, unreachable_findings, build_findings,
}
use domaintest.Report.Mirror.{is_fail, build_findings-mirrors}
use domaintest.Text.{Bytes, lit}

abbrev pub fails : Finding → Bool
fails x = is_fail x.severity

abbrev unreached_fam : Bytes → List Finding
unreached_fam fam =
    fail Code.resolver_unreachable [] (lit "resolver not reachable over " ∷ fam ∷ [])

any-fails-each : (fams : List Bytes) → any fails (each unreached_fam fams) ≡ not (is_nil fams)
unfolding each
any-fails-each [] = refl
any-fails-each (fam ∷ fams) = refl

is_nil-insert : (x : Bytes) (xs : List Bytes) → is_nil (insert x xs) ≡ false
unfolding insert
is_nil-insert x [] = refl
is_nil-insert x (y ∷ ys) = ground arith

is_nil-sort_strings : (xs : List Bytes) → is_nil (sort_strings xs) ≡ is_nil xs
unfolding sort_strings
is_nil-sort_strings [] = refl
is_nil-sort_strings (x ∷ xs) = is_nil-insert x (sort_strings xs)

is_nil-unreached :
    (reach : List (Bytes × Reach))
    → is_nil (unreached reach) ≡ not (any (λ r. is_unreachable r.1) reach)
is_nil-unreached [] = refl
is_nil-unreached (r ∷ reach) = ground (arith, is_nil-unreached reach)

any-fails-reachability :
    (reach : List (Bytes × Reach))
    → any fails (reachability_findings reach) ≡ any (λ r. is_unreachable r.1) reach
unfolding reachability_findings
any-fails-reachability reach = ground (
  arith,
  any-fails-each (sort_strings (unreached reach)),
  is_nil-sort_strings (unreached reach),
  is_nil-unreached reach,
)

any-fails-deadline : (rep : Report) → any fails (deadline_findings rep) ≡ false
unfolding deadline_findings
any-fails-deadline rep = ground arith

any-append-two :
    (xs ys zs : List Finding)
    → any fails (xs ++ (ys ++ zs)) ≡ (any fails xs || (any fails ys || any fails zs))
any-append-two xs ys zs =
    any-append fails xs (ys ++ zs) ∙ ap (λ b. any fails xs || b) (any-append fails ys zs)

-- What a report of an unreachable zone may mention.
abbrev pub is_kept : Code → Bool
is_kept Code.resolver_unreachable = true
is_kept Code.run_deadline_reached = true
is_kept Code.zone_unreachable = true
is_kept Code.domain_on_hold = true
is_kept Code.domain_pending_deletion = true
is_kept Code.rdap_lookup_failed = true
is_kept _ = false

abbrev AreKept : List Finding → Type 0
AreKept xs = All (λ x. is_kept x.code ≡ true) xs

each-AreKept : (fams : List Bytes) → AreKept (each unreached_fam fams)
unfolding each
each-AreKept [] = tt
each-AreKept (fam ∷ fams) = (refl, each-AreKept fams)

reachability_findings-AreKept :
    (reach : List (Bytes × Reach)) → AreKept (reachability_findings reach)
unfolding reachability_findings
reachability_findings-AreKept reach = each-AreKept (sort_strings (unreached reach))

rdap_findings-AreKept : (r : Option RdapReport) → AreKept (rdap_findings r)
unfolding rdap_findings registered_statuses
rdap_findings-AreKept r = ground arith

deadline_findings-AreKept : (rep : Report) → AreKept (deadline_findings rep)
unfolding deadline_findings
deadline_findings-AreKept rep = ground arith

module _ (out : Outside) where
  any-fails-reserved :
      (rep : Report)
      → any fails (reserved_name_findings out rep)
        ≡ any (λ r. is_unreachable r.1) rep.dns.resolver_reachable
  unfolding reserved_name_findings
  any-fails-reserved rep =
      any-append-two (reachability_findings rep.dns.resolver_reachable) (deadline_findings rep) _
      ∙ ground (arith, any-fails-reachability rep.dns.resolver_reachable, any-fails-deadline rep)

  -- The report of a reserved name is ok exactly when the resolver was reached over each family that
  -- was tried.
  pub build_findings-reserved :
      (rep : Report)
      → is_nil rep.reserved_name ≡ false
      → ((build_findings out rep).fine ≡ true)
        ↔ (any (λ r. is_unreachable r.1) rep.dns.resolver_reachable ≡ false)
  unfolding findings_of zone_unreachable
  build_findings-reserved rep h =
      let m = (build_findings-mirrors out rep).3 in
      let e : findings_of out rep ≡ reserved_name_findings out rep = ground (arith, h) in
      rw⁻¹ (any-fails-reserved rep) (rw⁻¹ e m)

  any-fails-unreachable : (rep : Report) → any fails (unreachable_findings out rep) ≡ true
  unfolding unreachable_findings
  any-fails-unreachable rep =
      any-append-two (reachability_findings rep.dns.resolver_reachable) (deadline_findings rep) _
      ∙ ground arith

  -- The report of a zone that cannot be reached is not ok, and it mentions nothing but the resolver,
  -- the deadline, the registration and the unreachable zone.
  pub build_findings-unreachable :
      (rep : Report)
      → zone_unreachable rep ≡ true
      → ((build_findings out rep).fine ≡ false) × AreKept (build_findings out rep).entries
  unfolding findings_of unreachable_findings
  build_findings-unreachable rep h =
      let m = build_findings-mirrors out rep in
      let e : findings_of out rep ≡ unreachable_findings out rep = ground (arith, h) in
      (
        ground (arith, m.3, ap (any fails) e, any-fails-unreachable rep),
        rw m.0 (
            rw e (
              All-append _ _ _ (reachability_findings-AreKept rep.dns.resolver_reachable) (
                All-append _ _ _ (deadline_findings-AreKept rep)
                  (refl, rdap_findings-AreKept rep.rdap)))),
      )
