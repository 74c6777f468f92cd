-- ===== src/Caa/Issuers.antt =====
-- caa.go: the CAA identifiers of the certificate authorities, by the name of the issuer.
use domaintest.Prelude.{
  ◌==◌, if◌then◌else◌, ℕ, Bool, ◌||◌, Option, none, some, List, [], ◌∷◌, ◌++◌, map,
}
use domaintest.Text.{Bytes, lit, has_infix, to_lower, fields, join}

-- `caaIssuers`
unfoldable pub caa_issuers : List (Bytes × List Bytes)
caa_issuers =
    (lit "let's encrypt", lit "letsencrypt.org" ∷ [])
    ∷ (lit "internet security research group", lit "letsencrypt.org" ∷ [])
    ∷ (
      lit "digicert",
      lit "digicert.com"
          ∷ lit "digicert.ne.jp"
          ∷ lit "geotrust.com"
          ∷ lit "rapidssl.com"
          ∷ lit "symantec.com"
          ∷ lit "thawte.com"
          ∷ [],
    )
    ∷ (lit "geotrust", lit "geotrust.com" ∷ lit "digicert.com" ∷ [])
    ∷ (lit "thawte", lit "thawte.com" ∷ lit "digicert.com" ∷ [])
    ∷ (lit "rapidssl", lit "rapidssl.com" ∷ lit "digicert.com" ∷ [])
    ∷ (lit "sectigo", lit "sectigo.com" ∷ lit "comodoca.com" ∷ [])
    ∷ (lit "comodo", lit "sectigo.com" ∷ lit "comodoca.com" ∷ [])
    ∷ (lit "zerossl", lit "sectigo.com" ∷ lit "comodoca.com" ∷ [])
    ∷ (lit "globalsign", lit "globalsign.com" ∷ [])
    ∷ (lit "google trust services", lit "pki.goog" ∷ [])
    ∷ (
      lit "amazon",
      lit "amazon.com" ∷ lit "amazontrust.com" ∷ lit "awstrust.com" ∷ lit "amazonaws.com" ∷ [],
    )
    ∷ (lit "godaddy", lit "godaddy.com" ∷ [])
    ∷ (lit "starfield", lit "godaddy.com" ∷ lit "starfieldtech.com" ∷ [])
    ∷ (lit "entrust", lit "entrust.net" ∷ [])
    ∷ (lit "identrust", lit "identrust.com" ∷ [])
    ∷ (lit "ssl.com", lit "ssl.com" ∷ [])
    ∷ (lit "ssl corporation", lit "ssl.com" ∷ [])
    ∷ (lit "buypass", lit "buypass.com" ∷ [])
    ∷ (lit "actalis", lit "actalis.it" ∷ [])
    ∷ (lit "microsoft", lit "microsoft.com" ∷ [])
    ∷ (
      lit "cloudflare",
      lit "pki.goog" ∷ lit "letsencrypt.org" ∷ lit "digicert.com" ∷ lit "sectigo.com" ∷ [],
    )
    ∷ []

-- `strings.NewReplacer(".", " ", ",", " ", "-", " ")`
abbrev separate : ℕ → ℕ
separate c = if c == b'.' || c == b',' || c == b'-' then b' ' else c

-- `normalizeOrg`
unfoldable pub normalize_org : Bytes → Bytes
normalize_org s = join (fields (map separate (to_lower s))) (lit " ")

-- A name of the table stands in the organisation as whole words.
abbrev pub mentions : Bytes → Bytes → Bool
mentions org name = has_infix (lit " " ++ (normalize_org name ++ lit " ")) org

ids_in : Bytes → List (Bytes × List Bytes) → Option (List Bytes)
ids_in org [] = none
ids_in org ((name, ids) ∷ rest) =
    let later = ids_in org rest in if mentions org name then some ids else later

-- `caaIDsFor`
unfoldable pub caa_ids_for : Bytes → Option (List Bytes)
unfolding ids_in
caa_ids_for issuer = ids_in (lit " " ++ (normalize_org issuer ++ lit " ")) caa_issuers
