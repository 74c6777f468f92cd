-- ===== src/Mail/Policy.antt =====
-- mail.go: the DMARC policy.
use domaintest.Prelude.{
  if◌then◌else◌, is_some, length, is_nil, keep, ℤ, is_negative, gtb, ℕ, ◌+◌, Bool, true, false, not,
  ◌&&◌, ◌||◌, Option, none, some, List, [], ◌∷◌, ◌++◌, pos,
}
use domaintest.Text.Numbers.{atoi}
use domaintest.Text.{Bytes, ◌=?◌, to_lower, cut, split, concat, lit, has_prefix, trim_space}
use domaintest.Records.{Lookup, is_set, answered}

-- `DMARC`
pub record Dmarc : Type 0 where
  pub present : Bool
  pub unresolved : Bool
  pub policy : Bytes
  pub subdomain_policy : Bytes
  pub pct : ℤ
  pub rua : Bool
  pub count : ℕ
  pub problems : List Bytes

-- `tags[k]`: the later of two entries with one key is the one that the map keeps.
unfoldable pub find_tag : List (Bytes × Bytes) → Bytes → Option Bytes
find_tag [] k = none
find_tag ((j, v) ∷ rest) k =
    let later = find_tag rest k in if is_some later then later else if j =? k then some v else none

abbrev or_empty : Option Bytes → Bytes
or_empty none = []
or_empty (some v) = v

unfoldable pub tag_value : List (Bytes × Bytes) → Bytes → Bytes
tag_value tags k = or_empty (find_tag tags k)

-- `parseTags`: the entries in the order of the record.
add_tag : Bytes × Option Bytes → List (Bytes × Bytes) → List (Bytes × Bytes)
add_tag (k, none) tags = tags
add_tag (k, some v) tags = (to_lower (trim_space k), trim_space v) ∷ tags

tags_of : List Bytes → List (Bytes × Bytes)
unfolding add_tag
tags_of [] = []
tags_of (part ∷ rest) = add_tag (cut (trim_space part) b'=') (tags_of rest)

unfoldable pub parse_tags : Bytes → List (Bytes × Bytes)
unfolding tags_of
parse_tags s = tags_of (split s b';')

-- `parsePct`
pct_in_range : ℤ × Bool → ℤ × Bool
pct_in_range (n, fine) =
    if not fine || is_negative n || gtb n 100 then (pos 100, false) else (n, true)

unfoldable pub parse_pct : Bytes → ℤ × Bool
unfolding pct_in_range
parse_pct v = pct_in_range (atoi v)

-- `validDMARCPolicy`
unfoldable pub valid_dmarc_policy : Bytes → Bool
valid_dmarc_policy p = p =? lit "none" || p =? lit "quarantine" || p =? lit "reject"

-- The problems that `applyDMARCTags` appends, and the percentage.
unfoldable pub pct_tag : Option Bytes → ℤ × List Bytes
unfolding parse_pct
pct_tag none = (pos 100, [])
pct_tag (some v) =
    let (n, fine) = parse_pct v in
    (
      n,
      if fine
          then []
          else concat (lit "invalid pct=" ∷ v ∷ lit " (not a whole number from 0 to 100)" ∷ [])
            ∷ [],
    )

unfoldable pub policy_problems : Bytes → List Bytes
policy_problems p =
    if valid_dmarc_policy p
    then []
    else if is_nil p
    then lit "missing p= tag" ∷ []
    else (lit "unknown policy p=" ++ p) ∷ []

unfoldable pub subdomain_problems : Bytes → List Bytes
subdomain_problems sp =
    if not (is_nil sp) && not (valid_dmarc_policy sp)
    then (lit "unknown subdomain policy sp=" ++ sp) ∷ []
    else []

-- `applyDMARCTags`
unfoldable pub apply_dmarc_tags : Dmarc → List (Bytes × Bytes) → Dmarc
unfolding pct_tag
apply_dmarc_tags d tags =
    let p = to_lower (tag_value tags (lit "p")) in
    let sp = to_lower (tag_value tags (lit "sp")) in
    let (pct, pct_problems) = pct_tag (find_tag tags (lit "pct")) in
    record d {
      policy = p;
      subdomain_policy = sp;
      rua = not (is_nil (tag_value tags (lit "rua")));
      pct = pct;
      problems = d.problems ++ (pct_problems ++ (policy_problems p ++ subdomain_problems sp));
    }

unfoldable pub is_dmarc_record : Bytes → Bool
is_dmarc_record r = has_prefix (lit "v=dmarc1") (to_lower (trim_space r))

-- `parseDMARC`
unfoldable pub multiple_dmarc : Bytes
multiple_dmarc = lit "multiple DMARC records (invalid, receivers ignore all)"

unfoldable pub no_dmarc : Lookup → Dmarc
no_dmarc l = record {
  present = false;
  unresolved = is_set l.status && not (answered l);
  policy = [];
  subdomain_policy = [];
  pct = pos 100;
  rua = false;
  count = 0;
  problems = [];
}

unfoldable pub dmarc_of : Lookup → List Bytes → Dmarc
unfolding apply_dmarc_tags
dmarc_of l [] = no_dmarc l
dmarc_of l (r ∷ more) =
    apply_dmarc_tags
      (record (no_dmarc l) {
        present = true;
        count = 1 + length more;
        problems = if is_nil more then [] else multiple_dmarc ∷ [];
      })
      (parse_tags r)

unfoldable pub parse_dmarc : Lookup → Dmarc
unfolding dmarc_of
parse_dmarc l = dmarc_of l (keep is_dmarc_record l.records)
