-- ===== src/Wildcard/Verdict.antt =====
-- What settles the verdict on a wildcard.
use mathlib.Core.List.{Perm}
use domaintest.Prelude.{
  if◌then◌else◌, is_some, is_nil, any, first, All, any-perm, is_nil-perm, ◌≡◌, refl, ◌≢◌, ◌↔◌, ◌⊎◌,
  Bool, true, false, not, ◌&&◌, ◌||◌, List, [], ◌∷◌, ◌++◌, arith,
}
use domaintest.Text.{Bytes}
use domaintest.Addr.{NetIp}
use domaintest.Names.{Dpdomain}
use domaintest.Records.{addrs, answered as was_answered, is_nxdomain, Lookup}
use domaintest.Wildcard.{
  WildcardStatus, Outcome, WildProbe, WildcardReport, is_denied, is_unresolved, classify_probe,
  set_wildcard_verdict, assess_wildcard, www_is_wildcard, probed_report,
}

module _ (net : NetIp) where
  -- A probe got an address or a CNAME.
  abbrev pub has_answer : WildProbe → Bool
  has_answer p =
      not (is_nil (addrs net p.a))
      || not (is_nil (addrs net p.aaaa))
      || not (is_nil p.a.cname)
      || not (is_nil p.aaaa.cname)

  -- A random name is denied exactly when nothing came back for it and either a lookup said that
  -- the name does not exist or both lookups were answered; it is unresolved exactly when nothing
  -- came back, no lookup denied the name, and one of them was not answered.
  pub classify_probe_iff :
      (p : WildProbe)
      → ((classify_probe net p ≡ Outcome.denied) ↔ (
          (has_answer p ≡ false)
          × ((is_nxdomain p.a.status || is_nxdomain p.aaaa.status)
                || (was_answered p.a && was_answered p.aaaa)
              ≡ true)))
        × ((classify_probe net p ≡ Outcome.unresolved) ↔ (
            (has_answer p ≡ false)
            × (is_nxdomain p.a.status || is_nxdomain p.aaaa.status ≡ false)
            × (was_answered p.a && was_answered p.aaaa ≡ false)))
  unfolding classify_probe
  classify_probe_iff p = (ground arith, ground arith)

  abbrev pub some_denied : List WildProbe → Bool
  some_denied = any (λ p. is_denied (classify_probe net p))

  abbrev pub some_unresolved : List WildProbe → Bool
  some_unresolved = any (λ p. is_unresolved (classify_probe net p))

  -- The verdict by the outcomes alone.
  abbrev pub verdict_of : List WildProbe → WildcardStatus
  verdict_of probes =
      if some_denied probes
      then WildcardStatus.absent
      else if some_unresolved probes
      then WildcardStatus.unknown
      else WildcardStatus.present

  verdict_of-present_iff :
      (probes : List WildProbe)
      → ((some_denied probes || some_unresolved probes) ≡ false)
        ↔ All (λ p. classify_probe net p ≡ Outcome.answered) probes
  verdict_of-present_iff [] = ground arith
  verdict_of-present_iff (p ∷ probes) = ground (arith, verdict_of-present_iff probes)

  first-any : {A : Type 0} (p : A → Bool) (xs : List A) → any p xs ≡ is_some (first p xs)
  first-any p [] = refl
  first-any p (x ∷ xs) = ground (arith, first-any p xs)

  module _ (dp : Dpdomain) where
    -- The flag says that the status is present; the verdict leaves the other flag alone.
    set_wildcard_verdict-flag :
        (rep : WildcardReport) (probes : List WildProbe)
        → (((set_wildcard_verdict net dp rep probes).1 ≡ true)
            ↔ ((set_wildcard_verdict net dp rep probes).0.status ≡ WildcardStatus.present))
          × ((set_wildcard_verdict net dp rep probes).0.www_via_wildcard ≡ rep.www_via_wildcard)
    unfolding set_wildcard_verdict
    set_wildcard_verdict-flag rep probes = ground arith

    set_wildcard_verdict-status :
        (rep : WildcardReport) (probes : List WildProbe)
        → (set_wildcard_verdict net dp rep probes).0.status ≡ verdict_of probes
    unfolding set_wildcard_verdict
    set_wildcard_verdict-status rep probes = ground (
      arith,
      first-any (λ p. is_denied (classify_probe net p)) probes,
      first-any (λ p. is_unresolved (classify_probe net p)) probes,
    )

    -- The status of a report, by the reason not to probe and the outcomes.
    assess_wildcard-status :
        (probes : List WildProbe) (skip : Bytes) (www_a www_aaaa : Lookup)
        → (assess_wildcard net dp probes skip www_a www_aaaa).status ≡ (
            if not (is_nil skip)
            then WildcardStatus.absent
            else if is_nil probes
            then WildcardStatus.unknown
            else verdict_of probes)
    unfolding assess_wildcard
    assess_wildcard-status probes skip www_a www_aaaa =
        ground (arith, set_wildcard_verdict-status (probed_report net dp probes) probes)

    -- A zone is called a wildcard exactly when probes were issued and every one of them was
    -- answered.
    pub assess_wildcard-present_iff :
        (probes : List WildProbe) (skip : Bytes) (www_a www_aaaa : Lookup)
        → ((assess_wildcard net dp probes skip www_a www_aaaa).status ≡ WildcardStatus.present) ↔ (
            (skip ≡ []) × (probes ≢ []) × All (λ p. classify_probe net p ≡ Outcome.answered) probes)
    assess_wildcard-present_iff probes skip www_a www_aaaa =
        ground
          (arith, assess_wildcard-status probes skip www_a www_aaaa, verdict_of-present_iff probes)

    -- A zone is said to have no wildcard exactly when there was a reason not to probe, or a probe
    -- was denied, however many others were answered or stayed without an answer.
    pub assess_wildcard-absent_iff :
        (probes : List WildProbe) (skip : Bytes) (www_a www_aaaa : Lookup)
        → ((assess_wildcard net dp probes skip www_a www_aaaa).status ≡ WildcardStatus.absent)
          ↔ ((skip ≢ []) ⊎ ((skip ≡ []) × (some_denied probes ≡ true)))
    assess_wildcard-absent_iff probes skip www_a www_aaaa =
        ground (arith, assess_wildcard-status probes skip www_a www_aaaa)

    -- The status does not depend on the order of the probes.
    pub assess_wildcard-perm :
        {probes probes' : List WildProbe} (skip : Bytes) (www_a www_aaaa : Lookup)
        → Perm probes probes'
        → (assess_wildcard net dp probes skip www_a www_aaaa).status
          ≡ (assess_wildcard net dp probes' skip www_a www_aaaa).status
    assess_wildcard-perm {probes} {probes'} skip www_a www_aaaa p = ground (
      arith,
      assess_wildcard-status probes skip www_a www_aaaa,
      assess_wildcard-status probes' skip www_a www_aaaa,
      any-perm (λ x. is_denied (classify_probe net x)) p,
      any-perm (λ x. is_unresolved (classify_probe net x)) p,
      is_nil-perm p,
    )

    -- The www name is said to be answered by a wildcard exactly when the zone is called a wildcard
    -- and one of its probes was answered with the addresses of www.
    pub assess_wildcard-www_iff :
        (probes : List WildProbe) (skip : Bytes) (www_a www_aaaa : Lookup)
        → ((assess_wildcard net dp probes skip www_a www_aaaa).www_via_wildcard ≡ true) ↔ (
            ((assess_wildcard net dp probes skip www_a www_aaaa).status ≡ WildcardStatus.present)
            × (www_is_wildcard net probes (addrs net www_a ++ addrs net www_aaaa) ≡ true))
    unfolding assess_wildcard
    assess_wildcard-www_iff probes skip www_a www_aaaa =
        ground (arith, set_wildcard_verdict-flag (probed_report net dp probes) probes)
