-- ===== src/Findings/Redirects.antt =====
-- report.go: the findings on redirect chains.
use domaintest.Prelude.{
  leb, if◌then◌else◌, length, is_nil, Bool, not, ◌||◌, Option, none, some, List, [], ◌∷◌, ◌++◌, map,
}
use domaintest.Findings.Http.{status_findings, cleartext_findings, hsts_findings}
use domaintest.Text.Numbers.{itoa}
use domaintest.Text.{Bytes, concat, join, lit, ◌=?◌}
use domaintest.Codes.{Code}
use domaintest.Urls.{Url, UrlLibrary}
use domaintest.Findings.{Finding, fail, warn, info}
use domaintest.Web.{
  HostWeb, RedirectHop, RedirectChain, is_loop, sorted_chains, probe_refused, is_hop_limit,
  is_redirect_status,
}

-- `describeHops` and `loopTarget`
abbrev hop_text : RedirectHop → Bytes
hop_text h = concat (h.url ∷ lit " (" ∷ itoa h.status ∷ lit ")" ∷ [])

unfoldable pub describe_hops : List RedirectHop → Bytes
describe_hops hops = join (map hop_text hops) (lit " -> ")

unfoldable pub last_hop : List RedirectHop → Option RedirectHop
last_hop [] = none
last_hop (h ∷ []) = some h
last_hop (h ∷ g ∷ rest) = last_hop (g ∷ rest)

abbrev target_text : Option RedirectHop → Bytes
target_text none = []
target_text (some h) = if is_nil h.location then [] else lit " -> " ++ h.location

unfoldable pub loop_target : List RedirectHop → Bytes
loop_target hops = target_text (last_hop hops)

-- `chainFinding`: the text of a loop, or the findings.
unfoldable pub last_answer : Bytes → Bytes → Bytes → RedirectHop → List Finding
last_answer label fam final_url h =
    let ends = itoa h.status ∷ lit " at " ∷ final_url ∷ [] in
    if probe_refused h.status
    then info Code.http_probe_refused label (
        label
        ∷ lit " ("
        ∷ fam
        ∷ lit "): redirect chain ends in HTTP "
        ∷ (ends ++ lit ": the server refused the probe, so the destination was not verified" ∷ []))
    else if leb 400 h.status
    then warn Code.redirect_ends_error label
        (label ∷ lit " (" ∷ fam ∷ lit "): redirect chain ends in HTTP " ∷ ends)
    else []

unfoldable pub judge_chain :
    Bytes → Bytes → RedirectChain → Option RedirectHop → Option Bytes × List Finding
unfolding last_answer
judge_chain label fam c none = (none, [])
judge_chain label fam c (some h) =
    if c.has_loop || is_loop c.ended
    then (some (describe_hops c.hops ++ loop_target c.hops), [])
    else if is_hop_limit c.ended
    then (
      none,
      warn Code.redirect_hop_limit label (
          label
          ∷ lit " ("
          ∷ fam
          ∷ lit "): still redirecting after "
          ∷ itoa (length c.hops)
          ∷ lit " hops, so the destination is unknown: "
          ∷ describe_hops c.hops
          ∷ []),
    )
    else if not (is_nil c.error)
    then (
      none,
      warn Code.redirect_broken label
          (label ∷ lit " (" ∷ fam ∷ lit "): redirect chain broke: " ∷ c.error ∷ []),
    )
    else (none, last_answer label fam c.final_url h)

unfoldable pub chain_finding : Bytes → Bytes → RedirectChain → Option Bytes × List Finding
unfolding judge_chain
chain_finding label fam c = judge_chain label fam c (last_hop c.hops)

-- The families of each text, in the order in which the texts were first seen.
unfoldable pub add_family : Bytes → Bytes → List (Bytes × List Bytes) → List (Bytes × List Bytes)
add_family text fam [] = (text, fam ∷ []) ∷ []
add_family text fam ((t, fams) ∷ rest) =
    let later = add_family text fam rest in
    if t =? text then (t, fams ++ fam ∷ []) ∷ rest else (t, fams) ∷ later

add_some : Option Bytes → Bytes → List (Bytes × List Bytes) → List (Bytes × List Bytes)
add_some none fam groups = groups
add_some (some text) fam groups = add_family text fam groups

unfoldable pub loops_from :
    Bytes → List (Bytes × List Bytes) → List (Bytes × RedirectChain) → List (Bytes × List Bytes)
unfolding add_some
loops_from label groups [] = groups
loops_from label groups ((fam, c) ∷ rest) =
    loops_from label (add_some (chain_finding label fam c).0 fam groups) rest

unfoldable pub chain_notes : Bytes → List (Bytes × RedirectChain) → List Finding
chain_notes label [] = []
chain_notes label ((fam, c) ∷ rest) = (chain_finding label fam c).1 ++ chain_notes label rest

unfoldable pub loop_failures : Bytes → List (Bytes × List Bytes) → List Finding
loop_failures label [] = []
loop_failures label ((text, fams) ∷ rest) =
    fail Code.redirect_loop label
      (label ∷ lit " (" ∷ join fams (lit ", ") ∷ lit "): redirect loop " ∷ text ∷ [])
    ++ loop_failures label rest

module _ (urls : UrlLibrary) where
  -- `downgradeHop`
  to_http : RedirectHop → Option Url → Bytes
  to_http h none = []
  to_http h (some to) =
      if to.scheme =? lit "http" then concat (h.url ∷ lit " -> " ∷ to.text ∷ []) else []

  from_https : RedirectHop → Option Url → Bytes
  unfolding to_http
  from_https h none = []
  from_https h (some from) =
      if not (from.scheme =? lit "https") || not (is_redirect_status h.status) || is_nil h.location
      then []
      else to_http h (urls.resolve from h.location)

  unfoldable pub downgrade_hop : List RedirectHop → Bytes
  unfolding from_https
  downgrade_hop [] = []
  downgrade_hop (h ∷ rest) =
      let later = downgrade_hop rest in
      let here = from_https h (urls.parse h.url) in if is_nil here then later else here

  -- `downgradeFindings`
  unfoldable pub downgrades_from :
      List (Bytes × List Bytes) → List (Bytes × RedirectChain) → List (Bytes × List Bytes)
  downgrades_from groups [] = groups
  downgrades_from groups ((fam, c) ∷ rest) =
      let hop = downgrade_hop c.hops in
      downgrades_from (if is_nil hop then groups else add_family hop fam groups) rest

  unfoldable pub downgrade_warnings : Bytes → List (Bytes × List Bytes) → List Finding
  downgrade_warnings label [] = []
  downgrade_warnings label ((hop, fams) ∷ rest) =
      warn Code.redirect_downgrade label (
        label ∷ lit " (" ∷ join fams (lit ", ") ∷ lit "): redirect from https to http: " ∷ hop ∷ [])
      ++ downgrade_warnings label rest

  unfoldable pub downgrade_findings : Bytes → List (Bytes × RedirectChain) → List Finding
  unfolding downgrade_warnings
  downgrade_findings label chains =
      downgrade_warnings label (downgrades_from [] (sorted_chains chains))

  -- `redirectFindings`
  unfoldable pub redirect_findings : Bytes → List (Bytes × RedirectChain) → List Finding
  unfolding loop_failures
  redirect_findings label chains =
      chain_notes label (sorted_chains chains)
      ++ (downgrade_findings label chains
          ++ loop_failures label (loops_from label [] (sorted_chains chains)))

  -- `httpFindings`
  unfoldable pub http_findings : Bytes → Option HostWeb → Bool → List Finding
  http_findings label none preloaded = []
  http_findings label (some h) preloaded =
      let ips = h.ipv4 ++ h.ipv6 in
      status_findings label (lit "80") (map (λ a. a.http_res) ips)
      ++ (status_findings label (lit "443") (map (λ a. a.https_res) ips)
          ++ (cleartext_findings label ips preloaded
              ++ (redirect_findings label h.redirects ++ hsts_findings label ips)))
