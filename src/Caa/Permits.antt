-- ===== src/Caa/Permits.antt =====
-- When the records permit an authority, and what a verdict says.
use domaintest.Prelude.{is_nil, ◌≡◌, ◌⊎◌, Bool, true, false, not, ◌&&◌, some, List}
use domaintest.Caa.Issuers.{caa_ids_for}
use domaintest.Caa.{
  CaaRecord, ServedCert, caa_permits, issuer_domain, names_one_of, critical_unknown_tag,
}
use domaintest.Text.{Bytes, ◌=?◌}

-- The record has the property and names an authority with one of the identifiers.
abbrev pub authorises : Bytes → List Bytes → CaaRecord → Bool
authorises tag ids r =
    r.tag =? tag && (not (is_nil (issuer_domain r)) && names_one_of ids (issuer_domain r))

-- Why a certificate is permitted, or not, by the records that govern the name.
abbrev pub IsPermitted : List CaaRecord → ServedCert → Type 0
IsPermitted parsed cert =
    (is_nil parsed ≡ true)
    ⊎ ((is_nil (critical_unknown_tag parsed) ≡ true)
        × ((ids : List Bytes) × (caa_ids_for cert.issuer ≡ some ids)
            × (caa_permits parsed ids cert.wildcard ≡ true)))

abbrev pub IsDenied : List CaaRecord → ServedCert → Type 0
IsDenied parsed cert =
    (is_nil parsed ≡ false)
    × ((is_nil (critical_unknown_tag parsed) ≡ false)
        ⊎ ((ids : List Bytes) × (caa_ids_for cert.issuer ≡ some ids)
            × (caa_permits parsed ids cert.wildcard ≡ false)))
