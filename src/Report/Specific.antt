-- ===== src/Report/Specific.antt =====
-- The codes that the problems of a mail section get.
use domaintest.Prelude.{
  ◌==◌, if◌then◌else◌, Bool-cases, length, is_nil, any, All, All-append, ◌+◌, ◌≡◌, inl, inr, Bool,
  true, false, not, ◌&&◌, ◌||◌, Option, none, some, List, [], ◌∷◌, ◌++◌, arith, All-weaken,
}
use domaintest.Text.Laws.{=?_refl}
use domaintest.Names.{Dpdomain, Normalized}
use domaintest.Addr.{NetIp}
use domaintest.Records.{Lookup, is_nxdomain, answered}
use domaintest.Mail.Mx.{
  mx_unresolved_problem, MxCheck, new_check, judge_target, add_problem, resolve_target,
  normalized_target, checked, check_mx_target, check_mx, check_records,
}
use domaintest.Findings.Mail.{
  dmarc_problem_class, dmarc_problems, dmarc_findings, dmarc_pct, mx_problem_code, mx_problems,
  mx_findings, mx_problem, class_in, spf_classes, spf_findings, matches, spf_problem_class,
}
use domaintest.Mail.Policy.{
  policy_problems, subdomain_problems, pct_tag, multiple_dmarc, apply_dmarc_tags, Dmarc, dmarc_of,
  no_dmarc, parse_tags, parse_dmarc,
}
use domaintest.Text.{Bytes, has_prefix, ◌=?◌, lit, concat, fields}
use domaintest.Findings.Mail.{SpfClass}
use domaintest.Spf.Prefixes.{Netmask}
use domaintest.Spf.Known.{AreKnown}
use domaintest.Spf.Result.{evaluate_spf-AreKnown}
use domaintest.Spf.{evaluate_spf}
use domaintest.Codes.{Code}
use domaintest.Findings.{Finding}

-- Not one of the codes kept for a problem that the tables do not know.
abbrev pub is_specific : Code → Bool
is_specific Code.mx_invalid = false
is_specific Code.dmarc_invalid = false
is_specific Code.spf_invalid = false
is_specific Code.spf_problem = false
is_specific _ = true

abbrev pub AreSpecific : List Finding → Type 0
AreSpecific xs = All (λ x. is_specific x.code ≡ true) xs

abbrev AreDmarcProblems : List Bytes → Type 0
AreDmarcProblems ps = All (λ p. is_specific (dmarc_problem_class p).0 ≡ true) ps

policy_problems-known : (p : Bytes) → AreDmarcProblems (policy_problems p)
unfolding policy_problems dmarc_problem_class has_prefix ◌=?◌ lit
policy_problems-known p = ground arith

subdomain_problems-known : (p : Bytes) → AreDmarcProblems (subdomain_problems p)
unfolding subdomain_problems dmarc_problem_class has_prefix ◌=?◌ lit
subdomain_problems-known p = ground arith

pct_tag-known : (v : Option Bytes) → AreDmarcProblems (pct_tag v).1
unfolding pct_tag dmarc_problem_class has_prefix ◌=?◌ lit concat
pct_tag-known v = ground arith

multiple-known :
    (records : List Bytes) → AreDmarcProblems (if is_nil records then [] else multiple_dmarc ∷ [])
unfolding multiple_dmarc dmarc_problem_class has_prefix ◌=?◌ lit
multiple-known records = ground arith

apply_dmarc_tags-known :
    (d : Dmarc) (tags : List (Bytes × Bytes))
    → AreDmarcProblems d.problems
    → AreDmarcProblems (apply_dmarc_tags d tags).problems
unfolding apply_dmarc_tags
apply_dmarc_tags-known d tags h = All-append _ _ _ h (
    All-append _ _ _ (pct_tag-known _)
      (All-append _ _ _ (policy_problems-known _) (subdomain_problems-known _)))

dmarc_of-known : (l : Lookup) (rs : List Bytes) → AreDmarcProblems (dmarc_of l rs).problems
unfolding dmarc_of no_dmarc
dmarc_of-known l [] = tt
dmarc_of-known l (r ∷ more) =
    apply_dmarc_tags-known
      (record (no_dmarc l) {
        present = true;
        count = 1 + length more;
        problems = if is_nil more then [] else multiple_dmarc ∷ [];
      })
      (parse_tags r) (multiple-known more)

-- The findings of problems that are known.
dmarc_problems-specific : (ps : List Bytes) → AreDmarcProblems ps → AreSpecific (dmarc_problems ps)
unfolding dmarc_problems
dmarc_problems-specific [] h = tt
dmarc_problems-specific (p ∷ ps) h = (h.0, dmarc_problems-specific ps h.1)

dmarc_findings-specific : (d : Dmarc) → AreDmarcProblems d.problems → AreSpecific (dmarc_findings d)
unfolding dmarc_findings dmarc_pct
dmarc_findings-specific d h = ground (arith, dmarc_problems-specific d.problems h)

-- A problem of an MX target that is known.
abbrev AreMxProblems : List Bytes → Type 0
AreMxProblems ps = All (λ p. is_specific (mx_problem_code p) ≡ true) ps

abbrev IsNewCheck : Option MxCheck → Type 0
IsNewCheck none = Unit
IsNewCheck (some c) = (c.unresolved ≡ false) × AreMxProblems c.problems

new_check-known : (several : Bool) (r : List Bytes) → IsNewCheck (new_check several r)
unfolding new_check mx_problem_code has_prefix ◌=?◌ lit
new_check-known several [] = tt
new_check-known several (pref ∷ []) = tt
new_check-known several (pref ∷ host ∷ []) = ground arith
new_check-known several (pref ∷ host ∷ x ∷ rest) = tt

-- A problem that gets a code of its own, with whether its target was resolved.
abbrev IsMxProblem : Bool → Bytes → Type 0
IsMxProblem unresolved p =
    ((unresolved && p =? mx_unresolved_problem) || is_specific (mx_problem_code p)) ≡ true

abbrev IsCheck : MxCheck → Type 0
IsCheck c = All (IsMxProblem c.unresolved) c.problems

if-IsCheck : (b : Bool) (c d : MxCheck) → IsCheck c → IsCheck d → IsCheck (if b then c else d)
if-IsCheck true c d p q = p
if-IsCheck false c d p q = q

AreMxProblems-IsCheck : (c : MxCheck) → AreMxProblems c.problems → IsCheck c
AreMxProblems-IsCheck c h =
    All-weaken _ _ (λ p k. let q : is_specific (mx_problem_code p) ≡ true = k in ground (arith, q))
      c.problems h

-- One problem more.
more-IsCheck :
    (c : MxCheck) (p : Bytes)
    → IsMxProblem c.unresolved p
    → AreMxProblems c.problems
    → IsCheck (record c { problems = c.problems ++ p ∷ [] })
more-IsCheck c p k h = All-append _ _ _ (AreMxProblems-IsCheck c h) (k, tt)

-- The classes of the problems of SPF.
class_in-specific :
    (cs : List SpfClass) (p : Bytes)
    → All (λ c. is_specific c.code ≡ true) cs
    → any (matches p) cs ≡ true
    → is_specific (class_in cs p).0 ≡ true
unfolding class_in
class_in-specific [] p h k = absurd (ground (arith, k))
class_in-specific (c ∷ cs) p h k = elim (Bool-cases (matches p c)) [
  | inl e ↦ rw e h.0
  | inr e ↦ rw e (class_in-specific cs p h.1 (ground (arith, e, k)))
]

spf_classes-specific : All (λ c. is_specific c.code ≡ true) spf_classes
unfolding spf_classes
spf_classes-specific = search

spf_findings-specific : (ps : List Bytes) → AreKnown ps → AreSpecific (spf_findings ps)
unfolding spf_findings spf_problem_class
spf_findings-specific [] k = tt
spf_findings-specific (p ∷ ps) k =
    (class_in-specific spf_classes p spf_classes-specific k.0, spf_findings-specific ps k.1)

module _ (net : NetIp) (dp : Dpdomain) (lookup : Bytes → Bytes → Lookup) where
  judge_target-IsCheck :
      (c : MxCheck) (a aaaa : Lookup)
      → AreMxProblems c.problems
      → IsCheck (judge_target net dp lookup c a aaaa)
  unfolding judge_target mx_problem_code has_prefix ◌=?◌ lit
  judge_target-IsCheck c a aaaa h =
      let empty = if c.addresses == 0 then add_problem (lit "MX target has no address") c else c in
      let absent =
        if is_nxdomain a.status then add_problem (lit "MX target does not exist") c else empty in
      if-IsCheck (not (answered a) || not (answered aaaa))
        (record c { unresolved = true; problems = c.problems ++ mx_unresolved_problem ∷ [] }) absent
        (more-IsCheck (record c { unresolved = true }) mx_unresolved_problem
          (ground (arith, =?_refl mx_unresolved_problem)) h)
        (if-IsCheck (is_nxdomain a.status) (add_problem (lit "MX target does not exist") c) empty
          (more-IsCheck c (lit "MX target does not exist") (ground arith) h)
          (if-IsCheck (c.addresses == 0) (add_problem (lit "MX target has no address") c) c
            (more-IsCheck c (lit "MX target has no address") (ground arith) h)
            (AreMxProblems-IsCheck c h)))

  resolve_target-IsCheck :
      (c : MxCheck) (a aaaa : Lookup)
      → AreMxProblems c.problems
      → IsCheck (resolve_target net dp lookup c a aaaa)
  unfolding resolve_target mx_problem_code has_prefix lit
  resolve_target-IsCheck c a aaaa h =
      elim (Bool-cases (not (is_nil a.cname) || not (is_nil aaaa.cname))) [
        | inl e ↦ rw e (judge_target-IsCheck _ a aaaa (All-append _ _ _ h (ground arith, tt)))
        | inr e ↦ rw e (judge_target-IsCheck _ a aaaa h)
      ]

  normalized_target-IsCheck :
      (c : MxCheck) (n : Normalized)
      → AreMxProblems c.problems
      → IsCheck (normalized_target net dp lookup c n)
  unfolding normalized_target mx_problem_code has_prefix lit
  normalized_target-IsCheck c (Normalized.invalid err) h = more-IsCheck c _ (ground arith) h
  normalized_target-IsCheck c (Normalized.name n) h = elim (Bool-cases n.is_ip) [
    | inl e ↦ rw e (more-IsCheck (record c { ip_literal = true }) _ (ground arith) h)
    | inr e ↦ rw e (resolve_target-IsCheck c _ _ h)
  ]

  -- The checks of the records.
  abbrev AreChecks : List MxCheck → Type 0
  AreChecks cs = All IsCheck cs

  checked-AreChecks :
      (o : Option MxCheck) (rest : List MxCheck)
      → IsNewCheck o
      → AreChecks rest
      → AreChecks (checked net dp lookup o rest)
  unfolding checked check_mx_target
  checked-AreChecks none rest k h = h
  checked-AreChecks (some c) rest k h = elim (Bool-cases (c.host =? lit ".")) [
    | inl e ↦ rw e (AreMxProblems-IsCheck c k.1, h)
    | inr e ↦ rw e (normalized_target-IsCheck c _ k.1, h)
  ]

  check_records-AreChecks :
      (several : Bool) (rs : List Bytes) → AreChecks (check_records net dp lookup several rs)
  unfolding check_records
  check_records-AreChecks several [] = tt
  check_records-AreChecks several (r ∷ rest) =
      checked-AreChecks _ _ (new_check-known several (fields r))
        (check_records-AreChecks several rest)

  mx_problems-specific :
      (c : MxCheck) (ps : List Bytes)
      → All (IsMxProblem c.unresolved) ps
      → AreSpecific (mx_problems c ps)
  unfolding mx_problems mx_problem
  mx_problems-specific c [] h = tt
  mx_problems-specific c (p ∷ ps) h = ground (arith, h.0, mx_problems-specific c ps h.1)

  mx_findings-specific : (cs : List MxCheck) → AreChecks cs → AreSpecific (mx_findings cs)
  unfolding mx_findings
  mx_findings-specific [] h = tt
  mx_findings-specific (c ∷ cs) h =
      All-append _ _ _ (mx_problems-specific c c.problems h.0) (mx_findings-specific cs h.1)

  -- Whatever the lookups gave, each problem that the evaluation of SPF and the checks of the DMARC
  -- record and of the MX targets note is known to the tables of the findings: none gets a code kept
  -- for other problems.
  pub mail_problems-specific :
      (mask : Netmask) (domain : Bytes) (txt dmarc mx : Lookup)
      → AreSpecific (spf_findings (evaluate_spf net mask dp lookup domain txt).problems)
        × AreSpecific (dmarc_findings (parse_dmarc dmarc))
        × AreSpecific (mx_findings (check_mx net dp lookup mx))
  unfolding parse_dmarc check_mx
  mail_problems-specific mask domain txt dmarc mx = (
    spf_findings-specific _ (evaluate_spf-AreKnown net mask dp lookup domain txt),
    dmarc_findings-specific _ (dmarc_of-known dmarc _),
    mx_findings-specific _ (check_records-AreChecks _ mx.records),
  )
