-- ===== src/WebConsistency.antt =====
-- webconsistency.go: the answers of one run to one URL, compared.
pub mod Collect
pub mod Answers
use domaintest.Prelude.{
  ltb, leb, ◌==◌, if◌then◌else◌, length, is_nil, take, ℕ, ◌+◌, Bool, true, false, not, ◌&&◌, ◌||◌,
  List, [], ◌∷◌, ◌++◌, map,
}
use domaintest.Text.Numbers.{itoa}
use domaintest.Text.Sort.{text_le}
use domaintest.Text.{Bytes, ◌=?◌, lit, concat, join}
use domaintest.Web.{probe_refused, is_redirect_status}

-- `webObservation` and `urlObservations`
pub record WebObservation : Type 0 where
  pub answer : Bytes
  pub self : Bool
  pub probe : Bool
  pub source : Bytes

pub record UrlObservations : Type 0 where
  pub key : Bytes
  pub url : Bytes
  pub host : Bytes
  pub obs : List WebObservation

-- `comparable`
unfoldable pub is_comparable : ℕ → Bytes → Bool
is_comparable status location =
    if status == 0 || probe_refused status
    then false
    else if is_redirect_status status && is_nil location
    then false
    else true

-- `defaultPort`
unfoldable pub default_port : Bytes → Bytes
default_port scheme =
    if scheme =? lit "http" then lit "80" else if scheme =? lit "https" then lit "443" else []

-- `answerTally`: the answers with their counts, sorted, and the texts.
unfoldable pub count_answer : Bytes → List (Bytes × ℕ) → List (Bytes × ℕ)
count_answer a [] = (a, 1) ∷ []
count_answer a ((b, n) ∷ rest) =
    let later = count_answer a rest in if b =? a then (b, n + 1) ∷ rest else (b, n) ∷ later

unfoldable pub count_answers : List WebObservation → List (Bytes × ℕ)
count_answers [] = []
count_answers (o ∷ rest) = count_answer o.answer (count_answers rest)

answer_before : Bytes × ℕ → Bytes × ℕ → Bool
answer_before a b = if not (a.1 == b.1) then ltb b.1 a.1 else text_le a.0 b.0

unfoldable pub insert_answer : Bytes × ℕ → List (Bytes × ℕ) → List (Bytes × ℕ)
unfolding answer_before
insert_answer a [] = a ∷ []
insert_answer a (b ∷ rest) =
    let later = insert_answer a rest in if answer_before a b then a ∷ (b ∷ rest) else b ∷ later

unfoldable pub sort_answers : List (Bytes × ℕ) → List (Bytes × ℕ)
unfolding insert_answer
sort_answers [] = []
sort_answers (a ∷ rest) = insert_answer a (sort_answers rest)

abbrev share_text : ℕ → Bytes × ℕ → Bytes
share_text total a = concat (a.0 ∷ lit " (" ∷ itoa a.1 ∷ lit " of " ∷ itoa total ∷ lit ")" ∷ [])

unfoldable pub answer_tally : List WebObservation → List Bytes
answer_tally obs = map (share_text (length obs)) (sort_answers (count_answers obs))

-- `selfRedirects`: the sources, and the number of probes.
unfoldable pub self_redirects : List WebObservation → List Bytes × ℕ
self_redirects [] = ([], 0)
self_redirects (o ∷ rest) =
    let (sources, probes) = self_redirects rest in
    if not o.probe
    then (sources, probes)
    else if o.self
    then (o.source ∷ sources, probes + 1)
    else (sources, probes + 1)

-- `describeSources`; an empty list has no first source.
abbrev first_source : List Bytes → Bytes
first_source [] = []
first_source (s ∷ rest) = s

unfoldable pub describe_sources : List Bytes → ℕ → Bytes
describe_sources s total =
    if total == 1 && length s == 1
    then concat (lit "its only address (" ∷ first_source s ∷ lit ")" ∷ [])
    else if length s == total
    then concat (lit "all " ∷ itoa total ∷ lit " addresses" ∷ [])
    else if leb (length s) 4
    then concat (
        itoa (length s)
        ∷ lit " of "
        ∷ itoa total
        ∷ lit " addresses ("
        ∷ join s (lit ", ")
        ∷ lit ")"
        ∷ [])
    else concat (
        itoa (length s)
        ∷ lit " of "
        ∷ itoa total
        ∷ lit " addresses ("
        ∷ join (take 4 s) (lit ", ")
        ∷ lit ", ...)"
        ∷ [])

-- An observation is added to the group of its key; the groups are in the order of the keys.
unfoldable pub add_observation : UrlObservations → List UrlObservations → List UrlObservations
add_observation g [] = g ∷ []
add_observation g (x ∷ rest) =
    let later = add_observation g rest in
    if x.key =? g.key
    then record x { obs = x.obs ++ g.obs } ∷ rest
    else if text_le g.key x.key
    then g ∷ (x ∷ rest)
    else x ∷ later
