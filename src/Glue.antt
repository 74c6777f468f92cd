-- ===== src/Glue.antt =====
-- nsaudit.go: the glue that the parent sends for nameservers inside the zone. The addresses of the
-- nameservers and the glue are maps of the source: a function, and a list of pairs.
pub mod Report
use domaintest.Prelude.{
  if◌then◌else◌, is_nil, any, Bool, false, not, ◌&&◌, ◌||◌, Option, none, some, List, [], ◌∷◌, ◌++◌,
}
use domaintest.Text.{Bytes, ◌=?◌, lit, has_suffix, contains}
use domaintest.Addr.{Addr, NetIp}
use domaintest.Dig.{DigMessage}
use domaintest.Names.{Dpdomain, fqdn_of}
use domaintest.Records.{Rr}
use domaintest.Text.Sort.{sort_strings}

-- `GlueReport`
pub record GlueReport : Type 0 where
  pub required : List Bytes
  pub missing : List Bytes
  pub mismatch : List Bytes

-- `isReferral`
unfoldable pub is_referral : DigMessage → Bool
is_referral m =
    if not (is_nil m.error) || not (m.status =? lit "NOERROR")
    then false
    else any (λ rr. rr.rtype =? lit "NS") (m.authority ++ m.answer)

-- `glueAddresses`: the owner and the address of each A and AAAA record. The key `glue[n]` is there
-- when a pair has the owner n.
unfoldable pub glue_addresses : List Rr → List (Bytes × Bytes)
glue_addresses [] = []
glue_addresses (rr ∷ rest) =
    let later = glue_addresses rest in
    if not (rr.rtype =? lit "A") && not (rr.rtype =? lit "AAAA")
    then later
    else (rr.owner, rr.rdata) ∷ later

unfoldable pub has_glue : List (Bytes × Bytes) → Bytes → Bool
has_glue glue n = any (λ g. g.0 =? n) glue

unfoldable pub is_glue : List (Bytes × Bytes) → Bytes → Bytes → Bool
is_glue glue n ip = any (λ g. g.0 =? n && g.1 =? ip) glue

module _ (net : NetIp) (dp : Dpdomain) where
  -- `inBailiwick`
  abbrev pub is_under : Bytes → Bytes → Bool
  is_under fqdn name = name =? fqdn || has_suffix (lit "." ++ fqdn) name

  bailiwick_from : Bytes → List Bytes → List Bytes → List Bytes
  bailiwick_from fqdn out [] = out
  bailiwick_from fqdn out (n ∷ rest) =
      let abs = fqdn_of dp n in
      bailiwick_from fqdn
        (if is_under fqdn abs && not (contains abs out) then out ++ abs ∷ [] else out) rest

  unfoldable pub in_bailiwick : List Bytes → Bytes → List Bytes
  unfolding bailiwick_from
  in_bailiwick names fqdn = sort_strings (bailiwick_from fqdn [] names)

  -- `glueMismatches`
  unfoldable pub glue_mismatches : Bytes → List Addr → List (Bytes × Bytes) → List Bytes
  glue_mismatches name [] glue = []
  glue_mismatches name (ip ∷ rest) glue =
      let later = glue_mismatches name rest glue in
      let s = net.addr_string ip in
      if not (is_glue glue name s) then (name ++ (lit " " ++ s)) ∷ later else later

  -- The loop of `checkGlue` over the names inside the zone.
  unfoldable pub compare_glue :
      List (Bytes × Bytes) → (Bytes → List Addr) → List Bytes → List Bytes × List Bytes
  unfolding glue_mismatches
  compare_glue glue addresses [] = ([], [])
  compare_glue glue addresses (n ∷ rest) =
      let (missing, mismatch) = compare_glue glue addresses rest in
      if not (has_glue glue n)
      then (n ∷ missing, mismatch)
      else (missing, glue_mismatches n (addresses n) glue ++ mismatch)

  unfoldable pub glue_report : DigMessage → Bytes → List Bytes → (Bytes → List Addr) → GlueReport
  glue_report m fqdn names addresses =
      let required = in_bailiwick names fqdn in
      let (missing, mismatch) = compare_glue (glue_addresses m.additional) addresses required in
      record { required = required; missing = missing; mismatch = mismatch }

  -- `checkGlue`; `none` is nil.
  unfoldable pub check_glue :
      List DigMessage → Bytes → List Bytes → (Bytes → List Addr) → Option GlueReport
  unfolding glue_report
  check_glue [] domain names addresses = none
  check_glue (m ∷ more) domain names addresses =
      if not (is_referral m)
      then none
      else if is_nil (fqdn_of dp domain)
      then none
      else some (glue_report m (fqdn_of dp domain) names addresses)
