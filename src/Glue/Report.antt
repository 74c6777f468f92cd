-- ===== src/Glue/Report.antt =====
-- Which nameservers need glue, and which are reported to lack it.
use domaintest.Prelude.{is_nil, any, ◌≡◌, ◌⊎◌, true, false, not, ◌&&◌, none, some, List, ◌∷◌}
use domaintest.Text.Sort.{IsSorted}
use domaintest.Dig.{DigMessage}
use domaintest.Text.{Bytes, contains, ◌=?◌}
use domaintest.Glue.{has_glue, is_under, glue_addresses, check_glue, GlueReport, is_referral}
use domaintest.Addr.{Addr, NetIp}
use domaintest.Names.{Dpdomain, fqdn_of}

module _ (net : NetIp) (dp : Dpdomain) where
  -- What the report says of the name x.
  abbrev pub IsGlueReport : Bytes → Bytes → List Bytes → GlueReport → DigMessage → Type 0
  IsGlueReport x fqdn names r m =
      (contains x r.required ≡ any (λ n. fqdn_of dp n =? x && is_under net dp fqdn x) names)
      × IsSorted r.required
      × (contains x r.missing
          ≡ (contains x r.required && not (has_glue (glue_addresses m.additional) x)))

  abbrev pub IsChecked :
      DigMessage → List DigMessage → Bytes → Bytes → List Bytes → (Bytes → List Addr) → Type 0
  IsChecked m more domain x names addresses =
      (((is_referral m && not (is_nil (fqdn_of dp domain))) ≡ false)
        × (check_glue net dp (m ∷ more) domain names addresses ≡ none))
      ⊎ (((is_referral m && not (is_nil (fqdn_of dp domain))) ≡ true)
          × ((r : GlueReport) × (check_glue net dp (m ∷ more) domain names addresses ≡ some r)
              × IsGlueReport x (fqdn_of dp domain) names r m))
