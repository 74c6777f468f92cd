-- ===== src/Findings/Statuses.antt =====
-- What the report says of the statuses of a port.
use domaintest.Prelude.{
  leb, ◌==◌, length, any, all, keep, length-append, length-keep-any, length-keep-all, ℕ, ◌+◌, ◌≤◌,
  ◌<◌, ◌≡◌, refl, Bool, true, false, not, ◌&&◌, ◌||◌, Option, none, some, List, [], ◌∷◌, arith,
}
use domaintest.Findings.{Finding}
use domaintest.Codes.{Code, Severity}
use domaintest.Findings.Http.{
  StatusTally, statuses_from, count_status, status_findings, status_verdict,
}
use domaintest.Web.{HttpResult, probe_refused}
use domaintest.Text.{Bytes}

-- A result with a status, and what the status is.
abbrev pub has_status : Option HttpResult → Bool
has_status none = false
has_status (some r) = not (r.status == 0)

abbrev pub is_server_error : Option HttpResult → Bool
is_server_error none = false
is_server_error (some r) = leb 500 r.status

abbrev pub is_refusal : Option HttpResult → Bool
is_refusal none = false
is_refusal (some r) = probe_refused r.status

abbrev pub is_client_error : Option HttpResult → Bool
is_client_error none = false
is_client_error (some r) = leb 400 r.status && not (leb 500 r.status)

abbrev number_of : (Option HttpResult → Bool) → List (Option HttpResult) → ℕ
number_of p rs = length (keep p rs)

abbrev is_other_error : Option HttpResult → Bool
is_other_error r = is_client_error r && not (is_refusal r)

probe_refused-bounds : (s : ℕ) → probe_refused s ≡ true → (400 ≤ s) × (s < 500)
unfolding probe_refused
probe_refused-bounds s h = ground arith

statuses_from-counts :
    (rs : List (Option HttpResult)) (t : StatusTally)
    → ((statuses_from t rs).total ≡ t.total + number_of has_status rs)
      × ((statuses_from t rs).server5xx ≡ t.server5xx + number_of is_server_error rs)
      × (length (statuses_from t rs).refusals ≡ length t.refusals + number_of is_refusal rs)
      × ((statuses_from t rs).client4xx ≡ t.client4xx + number_of is_other_error rs)
unfolding statuses_from count_status
statuses_from-counts [] t = (omega arith, omega arith, omega arith, omega arith)
statuses_from-counts (none ∷ rest) t = statuses_from-counts rest t
statuses_from-counts (some r ∷ rest) t = ground (
  arith,
  statuses_from-counts rest (count_status (some r) t),
  length-append t.refusals (r.status ∷ []),
  probe_refused-bounds r.status,
)

is_refusal-has_status : (r : Option HttpResult) → is_refusal r ≡ true → has_status r ≡ true
is_refusal-has_status none h = h
is_refusal-has_status (some r) h = ground (arith, h, probe_refused-bounds r.status)

is_server_error-has_status :
    (r : Option HttpResult) → is_server_error r ≡ true → has_status r ≡ true
is_server_error-has_status r h = ground arith

is_client_error-has_status :
    (r : Option HttpResult) → is_client_error r ≡ true → has_status r ≡ true
is_client_error-has_status r h = ground arith

-- The client errors are the refusals and the others; no server error is one.
client_errors :
    (rs : List (Option HttpResult))
    → (number_of is_other_error rs + number_of is_refusal rs ≡ number_of is_client_error rs)
      × (number_of is_server_error rs + number_of is_client_error rs ≤ number_of has_status rs)
client_errors [] = (refl, ground arith)
client_errors (none ∷ rest) = client_errors rest
client_errors (some r ∷ rest) = ground (arith, client_errors rest, probe_refused-bounds r.status)

-- The verdicts on a port, by what its addresses answered.
abbrev pub is_code_error : Code → Bool
is_code_error Code.http_server_error = true
is_code_error _ = false

abbrev pub is_code_partial : Code → Bool
is_code_partial Code.http_server_error_partial = true
is_code_partial _ = false

abbrev pub is_code_refused : Code → Bool
is_code_refused Code.http_probe_refused = true
is_code_refused _ = false

abbrev pub is_code_client : Code → Bool
is_code_client Code.http_client_error = true
is_code_client _ = false

-- Every address that answered has a status of the kind.
abbrev pub every : (Option HttpResult → Bool) → List (Option HttpResult) → Bool
every p rs = any has_status rs && all (λ r. not (has_status r) || p r) rs

abbrev reported : (Code → Bool) → List Finding → Bool
reported p xs = any (λ x. p x.code) xs

abbrev pub is_warning : Finding → Bool
is_warning x = elim x.severity [ Severity.warns ↦ true | _ ↦ false ]

-- A port fails exactly when some address answered and every answer is a server error; it is said to
-- fail in part exactly when some answers are server errors and others are not; the probe is said
-- to be refused exactly when there are answers and all refuse it; and a client error is said
-- exactly when there are answers, all are client errors, and not all are refusals. There is a
-- warning exactly for a failure in part and for such a client error, so for no refused probe.
pub status_findings_iff :
    (label port : Bytes) (rs : List (Option HttpResult))
    → (reported is_code_error (status_findings label port rs) ≡ every is_server_error rs)
      × (reported is_code_partial (status_findings label port rs)
          ≡ (any is_server_error rs && not (every is_server_error rs)))
      × (reported is_code_refused (status_findings label port rs) ≡ every is_refusal rs)
      × (reported is_code_client (status_findings label port rs)
          ≡ (every is_client_error rs && not (every is_refusal rs)))
      × (any is_warning (status_findings label port rs) ≡ (
          (any is_server_error rs && not (every is_server_error rs))
          || (every is_client_error rs && not (every is_refusal rs))))
unfolding status_findings status_verdict
status_findings_iff label port rs = ground (
  arith,
  statuses_from-counts rs (record { total = 0; server5xx = 0; client4xx = 0; refusals = [] }),
  client_errors rs,
  length-keep-any has_status rs,
  length-keep-any is_server_error rs,
  length-keep-all is_server_error has_status is_server_error-has_status rs,
  length-keep-all is_refusal has_status is_refusal-has_status rs,
  length-keep-all is_client_error has_status is_client_error-has_status rs,
)
