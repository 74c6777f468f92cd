-- ===== src/Findings/Http.antt =====
-- report.go: the findings on what HTTP and HTTPS answered.
use domaintest.Prelude.{
  ltb, leb, ◌==◌, if◌then◌else◌, length, ℤ, is_negative, ℤ_ltb, ℕ, ◌+◌, Bool, true, not, ◌&&◌, ◌||◌,
  Option, none, some, List, [], ◌∷◌, ◌++◌, pos, negsuc,
}
use domaintest.Text.Numbers.{itoa, itoa_int}
use domaintest.Text.{Bytes, join, lit, has_prefix, to_lower}
use domaintest.Codes.{Code}
use domaintest.Findings.{Finding, fail, warn, info}
use domaintest.Web.{AddrWeb, HttpResult, Hsts, probe_refused, is_redirect_status}

-- `statusTally`
pub record StatusTally : Type 0 where
  pub total : ℕ
  pub server5xx : ℕ
  pub client4xx : ℕ
  pub refusals : List ℕ

-- `tallyStatuses`, with the addresses' results on one port.
unfoldable pub count_status : Option HttpResult → StatusTally → StatusTally
count_status none t = t
count_status (some r) t =
    let t' = record t { total = t.total + 1 } in
    if r.status == 0
    then t
    else if leb 500 r.status
    then record t' { server5xx = t'.server5xx + 1 }
    else if probe_refused r.status
    then record t' { refusals = t'.refusals ++ r.status ∷ [] }
    else if leb 400 r.status
    then record t' { client4xx = t'.client4xx + 1 }
    else t'

unfoldable pub statuses_from : StatusTally → List (Option HttpResult) → StatusTally
statuses_from t [] = t
statuses_from t (r ∷ rest) = statuses_from (count_status r t) rest

abbrev pub tally_statuses : List (Option HttpResult) → StatusTally
tally_statuses rs =
    statuses_from (record { total = 0; server5xx = 0; client4xx = 0; refusals = [] }) rs

-- `distinctStatuses`: sorted, and each after a different one.
insert_status : ℕ → List ℕ → List ℕ
insert_status s [] = s ∷ []
insert_status s (t ∷ ts) =
    let later = insert_status s ts in if leb s t then s ∷ (t ∷ ts) else t ∷ later

unfoldable pub sort_ints : List ℕ → List ℕ
unfolding insert_status
sort_ints [] = []
sort_ints (s ∷ rest) = insert_status s (sort_ints rest)

changes_after : Option ℕ → ℕ → Bool
changes_after none s = true
changes_after (some before) s = not (s == before)

distinct_after : Option ℕ → List ℕ → List Bytes
unfolding changes_after
distinct_after before [] = []
distinct_after before (s ∷ rest) =
    let later = distinct_after (some s) rest in
    if changes_after before s then itoa s ∷ later else later

unfoldable pub distinct_statuses : List ℕ → Bytes
unfolding distinct_after
distinct_statuses statuses = join (distinct_after none (sort_ints statuses)) (lit "/")

-- `statusFindings`
unfoldable pub status_verdict : Bytes → Bytes → StatusTally → List Finding
status_verdict label port t =
    if t.total == 0
    then []
    else if t.server5xx == t.total
    then fail Code.http_server_error label
        (label ∷ lit ": every address returns a server error on port " ∷ port ∷ [])
    else if ltb 0 t.server5xx
    then warn Code.http_server_error_partial label (
        label
        ∷ lit ": "
        ∷ itoa t.server5xx
        ∷ lit " of "
        ∷ itoa t.total
        ∷ lit " addresses return a server error on port "
        ∷ port
        ∷ [])
    else if length t.refusals == t.total
    then info Code.http_probe_refused label (
        label
        ∷ lit ": every address refuses the probe on port "
        ∷ port
        ∷ lit " (HTTP "
        ∷ distinct_statuses t.refusals
        ∷ lit "), so the content was not verified"
        ∷ [])
    else if t.client4xx + length t.refusals == t.total
    then warn Code.http_client_error label
        (label ∷ lit ": every address returns a client error on port " ∷ port ∷ [])
    else []

unfoldable pub status_findings : Bytes → Bytes → List (Option HttpResult) → List Finding
status_findings label port rs = status_verdict label port (tally_statuses rs)

-- `upgradeTally` and `tallyUpgrades`
pub record UpgradeTally : Type 0 where
  pub total : ℕ
  pub served : ℕ
  pub elsewhere : ℕ
  pub temporary : ℕ
  pub statuses : List ℕ

unfoldable pub to_https : Bytes → Bool
to_https location = has_prefix (lit "https://") (to_lower location)

unfoldable pub count_upgrade : Option HttpResult → UpgradeTally → UpgradeTally
count_upgrade none t = t
count_upgrade (some r) t =
    let t' = record t { total = t.total + 1 } in
    if r.status == 0
    then t
    else if ltb r.status 300
    then record t' { served = t'.served + 1 }
    else if is_redirect_status r.status && not (to_https r.location)
    then record t' { elsewhere = t'.elsewhere + 1 }
    else if r.status == 302 || r.status == 303 || r.status == 307
    then record t' { temporary = t'.temporary + 1; statuses = t'.statuses ++ r.status ∷ [] }
    else t'

unfoldable pub upgrades_from : UpgradeTally → List AddrWeb → UpgradeTally
upgrades_from t [] = t
upgrades_from t (a ∷ rest) = upgrades_from (count_upgrade a.http_res t) rest

abbrev pub tally_upgrades : List AddrWeb → UpgradeTally
tally_upgrades ips =
    upgrades_from (record { total = 0; served = 0; elsewhere = 0; temporary = 0; statuses = [] })
      ips

-- `cleartextFindings`
abbrev share : ℕ → ℕ → List Bytes
share n total = itoa n ∷ lit " of " ∷ itoa total ∷ lit " addresses" ∷ []

unfoldable pub served_clear : Bytes → Bool → UpgradeTally → List Finding
served_clear label preloaded t =
    let parts =
      label
      ∷ lit ": HTTP serves content in the clear instead of redirecting to HTTPS ("
      ∷ (share t.served t.total ++ lit ")" ∷ []) in
    if ltb 0 t.served
    then (if preloaded
        then info Code.http_cleartext_preloaded label parts
        else warn Code.http_cleartext label parts)
    else []

unfoldable pub sent_elsewhere : Bytes → Bool → UpgradeTally → List Finding
sent_elsewhere label preloaded t =
    let parts =
      label
      ∷ lit ": HTTP redirects to a non-HTTPS URL ("
      ∷ (share t.elsewhere t.total ++ lit ")" ∷ []) in
    if ltb 0 t.elsewhere
    then (if preloaded
        then info Code.http_redirect_insecure_preloaded label parts
        else warn Code.http_redirect_insecure label parts)
    else []

unfoldable pub sent_for_now : Bytes → UpgradeTally → List Finding
sent_for_now label t =
    if ltb 0 t.temporary
    then info Code.http_redirect_temporary label (
        label
        ∷ lit ": the HTTP to HTTPS redirect is temporary (HTTP "
        ∷ distinct_statuses t.statuses
        ∷ lit ") on "
        ∷ (share t.temporary t.total
            ++ lit "; a permanent 301 or 308 is what browsers and caches remember" ∷ []))
    else []

unfoldable pub cleartext_findings : Bytes → List AddrWeb → Bool → List Finding
unfolding served_clear sent_elsewhere sent_for_now
cleartext_findings label ips preloaded =
    let t = tally_upgrades ips in
    served_clear label preloaded t ++ (sent_elsewhere label preloaded t ++ sent_for_now label t)

-- `hstsFindings`
abbrev hsts_of : Option HttpResult → Option Hsts
hsts_of none = none
hsts_of (some r) = r.hsts

shorter : ℤ → Option Hsts → ℤ
shorter shortest none = shortest
shorter shortest (some h) =
    if is_negative shortest || ℤ_ltb h.max_age shortest then h.max_age else shortest

unfoldable pub shortest_from : ℤ → List AddrWeb → ℤ
unfolding shorter
shortest_from shortest [] = shortest
shortest_from shortest (a ∷ rest) = shortest_from (shorter shortest (hsts_of a.https_res)) rest

unfoldable pub hsts_findings : Bytes → List AddrWeb → List Finding
hsts_findings label ips =
    let shortest = shortest_from (negsuc 0) ips in
    if not (is_negative shortest) && ℤ_ltb shortest (pos 15552000)
    then info Code.hsts_short_max_age label
        (label ∷ lit ": HSTS max-age " ∷ itoa_int shortest ∷ lit " is under 180 days" ∷ [])
    else []
