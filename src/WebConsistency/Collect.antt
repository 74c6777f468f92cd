-- ===== src/WebConsistency/Collect.antt =====
-- webconsistency.go: the observations of a run, collected by URL, and the findings on them;
-- httpprobe.go: `clipLocation`.
use domaintest.Prelude.{
  ltb, leb, if◌then◌else◌, length, is_nil, take, ℕ, Bool, true, false, not, ◌&&◌, ◌||◌, Option,
  none, some, List, [], ◌∷◌, ◌++◌,
}
use domaintest.Text.Numbers.{itoa}
use domaintest.Names.{Dpdomain, bare_name}
use domaintest.Text.{Bytes, concat, ◌=?◌, lit, join}
use domaintest.Text.Utf8.{to_valid_utf8}
use domaintest.Codes.{Code}
use domaintest.Urls.{Url, UrlLibrary}
use domaintest.Findings.{Finding, fail, warn}
use domaintest.Web.{
  AddrWeb, HostWeb, HttpResult, RedirectHop, RedirectChain, WebSection, is_redirect_status,
  sorted_chains, web_addrs,
}
use domaintest.WebConsistency.{
  UrlObservations, is_comparable, answer_tally, self_redirects, default_port, add_observation,
  describe_sources,
}

-- `clipLocation` of httpprobe.go
unfoldable pub clip_location : Bytes → Bytes
clip_location loc =
    if leb (length loc) 4096
    then loc
    else concat (
        to_valid_utf8 (take 4096 loc)
        ∷ lit "... (clipped, "
        ∷ itoa (length loc)
        ∷ lit " bytes)"
        ∷ [])

module _ (dp : Dpdomain) (urls : UrlLibrary) where
  -- `requestKey` and `urlKey`; `none` is a second result that is false.
  unfoldable pub request_key : Url → Bool → Option Bytes
  request_key u with_query =
      let host = bare_name dp u.hostname in
      if is_nil host || (not (u.scheme =? lit "http") && not (u.scheme =? lit "https"))
      then none
      else some (
          concat (
            u.scheme
            ∷ lit "://"
            ∷ host
            ∷ (if not (is_nil u.port) && not (u.port =? default_port u.scheme)
                then lit ":" ++ u.port
                else [])
            ∷ (if is_nil u.escaped_path then lit "/" else u.escaped_path)
            ∷ (if with_query && not (is_nil u.raw_query) then lit "?" ++ u.raw_query else [])
            ∷ []))

  key_of : Option Url → Option Bytes
  key_of none = none
  key_of (some u) = request_key u true

  unfoldable pub url_key : Bytes → Option Bytes
  unfolding key_of
  url_key raw = key_of (urls.parse raw)

  -- `describeAnswer`
  arrow : ℕ → Bytes → Bytes
  arrow status to = concat (itoa status ∷ lit " -> " ∷ to ∷ [])

  or_nothing : Option Bytes → Bytes
  or_nothing none = []
  or_nothing (some s) = s

  with_key : Bytes → ℕ → Bytes → Url → Option Bytes → Bytes × Bool
  unfolding arrow or_nothing
  with_key key status location target none = (arrow status (clip_location location), false)
  with_key key status location target (some full) =
      (arrow status (or_nothing (request_key target false)), full =? key)

  with_target : Bytes → ℕ → Bytes → Option Url → Bytes × Bool
  unfolding with_key arrow
  with_target key status location none = (arrow status (lit "(bad Location)"), false)
  with_target key status location (some target) =
      with_key key status location target (request_key target true)

  with_base : Bytes → ℕ → Bytes → Option Url → Bytes × Bool
  unfolding with_target
  with_base key status location none = (itoa status, false)
  with_base key status location (some base) =
      with_target key status location (urls.resolve base location)

  unfoldable pub describe_answer : Bytes → Bytes → ℕ → Bytes → Bytes × Bool
  unfolding with_base
  describe_answer raw key status location =
      if not (is_redirect_status status) || is_nil location
      then (itoa status, false)
      else with_base key status location (urls.parse raw)

  -- `hostLabel`
  label_of : Bytes → Option Url → Bytes
  label_of domain none = lit "www"
  label_of domain (some u) =
      if bare_name dp u.hostname =? bare_name dp domain then lit "apex" else lit "www"

  unfoldable pub host_label : Bytes → Bytes → Bytes
  unfolding label_of
  host_label domain raw = label_of domain (urls.parse raw)

  -- `note` of `collectWebObservations`
  note_keyed :
      Bytes
      → Bytes
      → ℕ
      → Bytes
      → Bytes
      → Bool
      → Option Bytes
      → List UrlObservations
      → List UrlObservations
  note_keyed domain raw status location source probe none groups = groups
  note_keyed domain raw status location source probe (some key) groups =
      let (answer, self) = describe_answer raw key status location in
      if not (is_comparable status location)
      then groups
      else add_observation
          (record {
            key = key;
            url = raw;
            host = host_label domain raw;
            obs = record { answer = answer; self = self; probe = probe; source = source } ∷ [];
          })
          groups

  unfoldable pub note :
      Bytes → Bytes → ℕ → Bytes → Bytes → Bool → List UrlObservations → List UrlObservations
  unfolding note_keyed
  note domain raw status location source probe groups =
      note_keyed domain raw status location source probe (url_key raw) groups

  -- `notePerAddress`
  note_result :
      Bytes → Bytes → Bytes → Option HttpResult → List UrlObservations → List UrlObservations
  note_result domain raw ip none groups = groups
  note_result domain raw ip (some r) groups = note domain raw r.status r.location ip true groups

  unfoldable pub note_per_address :
      Bytes → Bytes → List AddrWeb → List UrlObservations → List UrlObservations
  unfolding note_result
  note_per_address domain host [] groups = groups
  note_per_address domain host (a ∷ rest) groups =
      let http_url = concat (lit "http://" ∷ host ∷ lit "/" ∷ []) in
      let https_url = concat (lit "https://" ∷ host ∷ lit "/" ∷ []) in
      note_per_address domain host rest (
        note_result domain https_url a.ip a.https_res
          (note_result domain http_url a.ip a.http_res groups))

  -- `noteChains`
  note_hops : Bytes → Bytes → List RedirectHop → List UrlObservations → List UrlObservations
  note_hops domain fam [] groups = groups
  note_hops domain fam (h ∷ rest) groups = note_hops domain fam rest (
      note domain h.url h.status h.location (concat (lit "redirect chain (" ∷ fam ∷ lit ")" ∷ []))
        false groups)

  note_families : Bytes → List (Bytes × RedirectChain) → List UrlObservations → List UrlObservations
  unfolding note_hops
  note_families domain [] groups = groups
  note_families domain ((fam, c) ∷ rest) groups =
      note_families domain rest (note_hops domain fam c.hops groups)

  unfoldable pub note_chains : Bytes → Option HostWeb → List UrlObservations → List UrlObservations
  unfolding note_families
  note_chains domain none groups = groups
  note_chains domain (some h) groups = note_families domain (sorted_chains h.redirects) groups

  -- `collectWebObservations`
  unfoldable pub collect_web_observations : Bytes → WebSection → List UrlObservations
  collect_web_observations domain web =
      let www = lit "www." ++ domain in
      note_chains domain web.www (
        note_chains domain web.apex (
          note_per_address domain www (web_addrs web.www)
            (note_per_address domain domain (web_addrs web.apex) [])))

  -- `consistencyFindings` of report.go
  unfoldable pub differing : UrlObservations → List Finding
  differing g =
      let tally = answer_tally g.obs in
      if ltb 1 (length tally)
      then warn Code.http_response_inconsistent g.host (
          g.host
          ∷ lit ": "
          ∷ g.url
          ∷ lit " answered differently within one run: "
          ∷ join tally (lit "; ")
          ∷ [])
      else []

  unfoldable pub sent_back : UrlObservations → List Finding
  sent_back g =
      let (self, probes) = self_redirects g.obs in
      if ltb 0 (length self)
      then fail Code.redirect_self g.host (
          g.host
          ∷ lit ": "
          ∷ g.url
          ∷ lit " redirects to itself on "
          ∷ describe_sources self probes
          ∷ [])
      else []

  unfoldable pub judge_groups : List UrlObservations → List Finding
  unfolding differing sent_back
  judge_groups [] = []
  judge_groups (g ∷ rest) = (differing g ++ sent_back g) ++ judge_groups rest

  unfoldable pub consistency_findings : Bytes → WebSection → List Finding
  unfolding judge_groups
  consistency_findings domain web = judge_groups (collect_web_observations domain web)
