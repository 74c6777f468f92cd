-- ===== src/Findings.antt =====
-- report.go: how the findings are collected. A method of `findings` that adds findings is, in the
-- children, the list of those that it adds, in their order.
pub mod Mail
pub mod Count
pub mod Servers
pub mod Tallies
pub mod Silence
pub mod Statuses
pub mod Redirects
pub mod Http
pub mod Tls
pub mod Web
use domaintest.Prelude.{◌==◌, length, Bool, List, [], ◌∷◌, ◌++◌}
use domaintest.Codes.{Code, Severity}
use domaintest.Text.{Bytes, concat}

-- `Finding`
pub record Finding : Type 0 where
  pub code : Code
  pub severity : Severity
  pub host : Bytes
  pub message : Bytes

-- `findings`
pub record Findings : Type 0 where
  pub errors : List Bytes
  pub warnings : List Bytes
  pub entries : List Finding

abbrev pub no_findings : Findings
no_findings = record { errors = []; warnings = []; entries = [] }

-- `findings.add`
mirror : Finding → Severity → Findings → Findings
mirror x Severity.fails f = record f { errors = f.errors ++ x.message ∷ [] }
mirror x Severity.warns f = record f { warnings = f.warnings ++ x.message ∷ [] }
mirror x Severity.informs f = f

unfoldable pub add : Finding → Findings → Findings
unfolding mirror
add x f = mirror x x.severity (record f { entries = f.entries ++ x ∷ [] })

unfoldable pub collect : List Finding → Findings → Findings
collect [] f = f
collect (x ∷ xs) f = collect xs (add x f)

-- `findings.fail`, `findings.warn` and `findings.info`, with the parts of the message.
abbrev pub fail : Code → Bytes → List Bytes → List Finding
fail c host parts =
    record { code = c; severity = Severity.fails; host = host; message = concat parts } ∷ []

abbrev pub warn : Code → Bytes → List Bytes → List Finding
warn c host parts =
    record { code = c; severity = Severity.warns; host = host; message = concat parts } ∷ []

abbrev pub info : Code → Bytes → List Bytes → List Finding
info c host parts =
    record { code = c; severity = Severity.informs; host = host; message = concat parts } ∷ []

-- What `finish` writes into the report: the errors, the warnings, the findings and `ok`.
pub record Conclusion : Type 0 where
  pub errors : List Bytes
  pub warnings : List Bytes
  pub entries : List Finding
  pub fine : Bool

unfoldable pub finish : Findings → Conclusion
finish f = record {
  errors = f.errors;
  warnings = f.warnings;
  entries = f.entries;
  fine = length f.errors == 0;
}
