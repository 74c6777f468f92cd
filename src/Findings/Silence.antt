-- ===== src/Findings/Silence.antt =====
-- What the report says of nameservers that did not answer.
use domaintest.Text.Laws.{=?_iff}
use domaintest.Findings.{Finding}
use domaintest.Prelude.{
  ltb, ◌==◌, if◌then◌else◌, Bool-cases, any, all, keep, any-append, All, ℕ, ◌≤◌, ◌≡◌, refl, inl,
  inr, Bool, true, false, not, ◌&&◌, ◌||◌, List, [], ◌∷◌, map, arith,
}
use domaintest.Codes.{Code}
use domaintest.Findings.Count.{NsTally, is_silent, tally_servers, is_authoritative}
use domaintest.Findings.Servers.{
  name_findings, reserved_finding, lame_finding, silent_finding, all_names, server_warning,
  server_warnings, server_findings,
}
use domaintest.NsAudit.{NsServer}
use domaintest.Text.{Bytes, ◌=?◌, contains}
use domaintest.Findings.Tallies.{IsCount, is_named, number, tally_servers_lem}

abbrev pub is_no_answer : Code → Bool
is_no_answer Code.ns_no_answer = true
is_no_answer _ = false

abbrev pub is_partial_answer : Code → Bool
is_partial_answer Code.ns_partial_answer = true
is_partial_answer _ = false

-- What a tally adds under a name.
name_findings-silence :
    (n : Bytes) (t : NsTally)
    → (any (λ x. is_no_answer x.code && x.host =? n) (name_findings t)
        ≡ (t.name =? n && (ltb 0 t.silent && t.silent == t.total)))
      × (any (λ x. is_partial_answer x.code && x.host =? n) (name_findings t)
          ≡ (t.name =? n && (ltb 0 t.silent && not (t.silent == t.total))))
unfolding name_findings reserved_finding lame_finding silent_finding
name_findings-silence n t = ground arith

-- How the numbers of silent and of all addresses of a name compare.
abbrev of_name : Bytes → List NsServer → ℕ
of_name n servers = number is_silent (keep (is_named n) servers)

silent-number :
    (n : Bytes) (servers : List NsServer)
    → (of_name n servers ≤ number (is_named n) servers)
      × ((number (is_named n) servers == 0) ≡ not (any (is_named n) servers))
      × ((of_name n servers == number (is_named n) servers)
          ≡ all (λ s. not (is_named n s) || is_silent s) servers)
      × ((of_name n servers == 0) ≡ not (any (λ s. is_named n s && is_silent s) servers))
      × (ltb (of_name n servers) (number (is_named n) servers)
          ≡ any (λ s. is_named n s && not (is_silent s)) servers)
silent-number n [] = ground arith
silent-number n (s ∷ rest) = ground (arith, silent-number n rest)

-- What is said of a name: that it gives no answer, and that it answers in part.
abbrev pub reports_none : Bytes → List Finding → Bool
reports_none n xs = any (λ x. is_no_answer x.code && x.host =? n) xs

abbrev pub reports_partial : Bytes → List Finding → Bool
reports_partial n xs = any (λ x. is_partial_answer x.code && x.host =? n) xs

abbrev is_mute : Bytes → List NsServer → Bool
is_mute n servers =
    any (λ s. is_named n s && is_silent s) servers
    && all (λ s. not (is_named n s) || is_silent s) servers

abbrev is_uneven : Bytes → List NsServer → Bool
is_uneven n servers =
    any (λ s. is_named n s && is_silent s) servers
    && any (λ s. is_named n s && not (is_silent s)) servers

-- How all and any addresses of a name compare.
silent-any :
    (n : Bytes) (servers : List NsServer)
    → ((any (is_named n) servers && is_mute n servers)
        ≡ (any (is_named n) servers && all (λ s. not (is_named n s) || is_silent s) servers))
      × ((any (is_named n) servers && is_uneven n servers) ≡ is_uneven n servers)
      × (not (all (λ s. not (is_named n s) || is_silent s) servers)
          ≡ any (λ s. is_named n s && not (is_silent s)) servers)
silent-any n [] = ground arith
silent-any n (s ∷ rest) = ground (arith, silent-any n rest)

tally-silence :
    (n : Bytes) (servers : List NsServer) (t : NsTally)
    → IsCount servers t
    → (reports_none n (name_findings t) ≡ (t.name =? n && is_mute n servers))
      × (reports_partial n (name_findings t) ≡ (t.name =? n && is_uneven n servers))
tally-silence n servers t c = elim (Bool-cases (t.name =? n)) [
  | inl e ↦
      let q : t.name ≡ n = (=?_iff t.name n).0 e in
      let total : t.total ≡ number (is_named n) servers = rw (← q) c.0 in
      let silent : t.silent ≡ of_name n servers = rw (← q) c.1 in
      ground (
        arith,
        e,
        total,
        silent,
        name_findings-silence n t,
        silent-number n servers,
        silent-any n servers,
      )
  | inr e ↦ ground (arith, e, name_findings-silence n t)
]

names-silence :
    (n : Bytes) (servers : List NsServer) (ts : List NsTally)
    → All (IsCount servers) ts
    → (reports_none n (all_names ts) ≡ (contains n (map (λ t. t.name) ts) && is_mute n servers))
      × (reports_partial n (all_names ts)
          ≡ (contains n (map (λ t. t.name) ts) && is_uneven n servers))
unfolding all_names contains
names-silence n servers [] a = ground arith
names-silence n servers (t ∷ ts) a = ground (
  arith,
  tally-silence n servers t a.0,
  names-silence n servers ts a.1,
  any-append (λ x. is_no_answer x.code && x.host =? n) (name_findings t) (all_names ts),
  any-append (λ x. is_partial_answer x.code && x.host =? n) (name_findings t) (all_names ts),
)

warning-silence :
    (n : Bytes) (s : NsServer)
    → (reports_none n (server_warning s) ≡ false) × (reports_partial n (server_warning s) ≡ false)
unfolding server_warning
warning-silence n s = ground arith

warnings-silence :
    (n : Bytes) (servers : List NsServer)
    → (reports_none n (server_warnings servers) ≡ false)
      × (reports_partial n (server_warnings servers) ≡ false)
unfolding server_warnings
warnings-silence n [] = (refl, refl)
warnings-silence n (s ∷ rest) =
    let own = if is_authoritative s then server_warning s else [] in
    ground (
      arith,
      warning-silence n s,
      warnings-silence n rest,
      any-append (λ x. is_no_answer x.code && x.host =? n) own (server_warnings rest),
      any-append (λ x. is_partial_answer x.code && x.host =? n) own (server_warnings rest),
    )

abbrev pub IsSilenceVerdict : Bytes → List NsServer → Type 0
IsSilenceVerdict n servers =
    (reports_none n (server_findings servers)
      ≡ (any (is_named n) servers && all (λ s. not (is_named n s) || is_silent s) servers))
    × (reports_partial n (server_findings servers) ≡ (
        any (λ s. is_named n s && is_silent s) servers
        && any (λ s. is_named n s && not (is_silent s)) servers))

-- The findings on the nameservers report a name as giving no answer exactly when one of the
-- servers audited has this name and each one that has it stayed without an answer; and as
-- answering in part exactly when one server of this name did not answer and another one is not
-- counted as silent.
pub server_findings-silence : (n : Bytes) (servers : List NsServer) → IsSilenceVerdict n servers
unfolding server_findings
server_findings-silence n servers =
    let ts = tally_servers servers in
    let (names, d, counts) = tally_servers_lem servers in
    ground (
      arith,
      names n,
      warnings-silence n servers,
      names-silence n servers ts counts,
      silent-any n servers,
      any-append (λ x. is_no_answer x.code && x.host =? n) (server_warnings servers) (all_names ts),
      any-append (λ x. is_partial_answer x.code && x.host =? n) (server_warnings servers)
          (all_names ts),
    )
