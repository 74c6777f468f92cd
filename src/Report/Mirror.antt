-- ===== src/Report/Mirror.antt =====
-- The findings of a report against its errors, its warnings and `ok`.
use domaintest.Report.{Report}
use domaintest.Report.Build.{build_findings, Outside, findings_of}
use domaintest.Text.{Bytes}
use domaintest.Prelude.{
  ◌==◌, length, any, keep, ◌≡◌, sym, ◌↔◌, Bool, true, false, List, [], ◌∷◌, ◌++◌, map, append_assoc,
  append-nil, arith,
}
use domaintest.Codes.{Severity}
use domaintest.Findings.{Finding, Findings, add, collect, finish, no_findings}

abbrev pub is_fail : Severity → Bool
is_fail Severity.fails = true
is_fail _ = false

abbrev pub is_warn : Severity → Bool
is_warn Severity.warns = true
is_warn _ = false

-- The messages of the findings of some severities, in their order.
abbrev pub messages : (Severity → Bool) → List Finding → List Bytes
messages p xs = map (λ x. x.message) (keep (λ x. p x.severity) xs)

no_messages_iff :
    (xs : List Finding)
    → ((length (messages is_fail xs) == 0) ≡ true) ↔ (any (λ x. is_fail x.severity) xs ≡ false)
no_messages_iff [] = ground arith
no_messages_iff (x ∷ xs) = ground (arith, no_messages_iff xs)

-- What collecting leaves of the findings given.
collect-mirrors :
    (xs : List Finding) (f : Findings)
    → ((collect xs f).errors ≡ f.errors ++ messages is_fail xs)
      × ((collect xs f).warnings ≡ f.warnings ++ messages is_warn xs)
      × ((collect xs f).entries ≡ f.entries ++ xs)
unfolding collect add
collect-mirrors [] f = (sym (append-nil _), sym (append-nil _), sym (append-nil _))
collect-mirrors (x ∷ xs) f = ground (
  arith,
  collect-mirrors xs (add x f),
  append_assoc f.errors (x.message ∷ []) (messages is_fail xs),
  append_assoc f.warnings (x.message ∷ []) (messages is_warn xs),
  append_assoc f.entries (x ∷ []) xs,
)

-- The report lists the findings that the rules make, in their order; its errors are the messages
-- of those that fail and its warnings those of the warnings, each in the order of the findings; and
-- it is ok exactly when no finding fails.
pub build_findings-mirrors :
    (out : Outside) (rep : Report)
    → ((build_findings out rep).entries ≡ findings_of out rep)
      × ((build_findings out rep).errors ≡ messages is_fail (findings_of out rep))
      × ((build_findings out rep).warnings ≡ messages is_warn (findings_of out rep))
      × (((build_findings out rep).fine ≡ true)
          ↔ (any (λ x. is_fail x.severity) (findings_of out rep) ≡ false))
unfolding build_findings finish
build_findings-mirrors out rep =
    let (e, w, l) = collect-mirrors (findings_of out rep) no_findings in
    (l, e, w, rw e (no_messages_iff (findings_of out rep)))
