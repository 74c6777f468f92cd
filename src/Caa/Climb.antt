-- ===== src/Caa/Climb.antt =====
-- The records that govern www: its own, or the apex's where it has none.
use domaintest.Prelude.{
  is_nil, ◌≡◌, refl, ap, ◌∙◌, ◌⊎◌, inl, inr, Bool, true, false, some, List, arith,
}
use domaintest.Text.{Bytes}
use domaintest.Caa.{
  ServedCert, www_effective, www_verdict, caa_verdict, judge, parse_caa, CaaRecord,
}
use domaintest.Records.{Lookup, answered, has_records}

judge-known :
    (rec : Lookup) (parsed : List CaaRecord) (known : Bool) (cert : ServedCert) (b : Bool)
    → (judge rec parsed known cert).0 ≡ some b
    → known ≡ true
unfolding judge
judge-known rec parsed true cert b h = refl
judge-known rec parsed false cert b h = cc

www_effective-known :
    (apex_rec www_rec : Lookup)
    → (www_effective apex_rec www_rec).1 ≡ true
    → ((has_records www_rec ≡ true) × ((www_effective apex_rec www_rec).0 ≡ www_rec.records))
      ⊎ ((answered www_rec ≡ true)
          × (is_nil www_rec.records ≡ true)
          × (answered apex_rec ≡ true)
          × ((www_effective apex_rec www_rec).0 ≡ apex_rec.records))
unfolding www_effective has_records answered
www_effective-known apex_rec www_rec h = ground arith

judge-of-known :
    (rec : Lookup) (parsed : List CaaRecord) (known : Bool) (cert : ServedCert)
    → known ≡ true
    → (judge rec parsed known cert).0 ≡ (judge rec parsed true cert).0
judge-of-known rec parsed known cert h = ap (λ k. (judge rec parsed k cert).0) h

-- The verdict reports these records and is the judgement of these records.
abbrev pub JudgedOn : Lookup → Lookup → ServedCert → List Bytes → Type 0
JudgedOn apex_rec www_rec cert records =
    ((www_verdict apex_rec www_rec cert).effective ≡ records)
    × ((www_verdict apex_rec www_rec cert).permitted
        ≡ (judge www_rec (parse_caa records) true cert).0)

www_verdict-JudgedOn :
    (apex_rec www_rec : Lookup) (cert : ServedCert) (records : List Bytes)
    → (www_effective apex_rec www_rec).1 ≡ true
    → (www_effective apex_rec www_rec).0 ≡ records
    → JudgedOn apex_rec www_rec cert records
unfolding www_verdict caa_verdict
www_verdict-JudgedOn apex_rec www_rec cert records known e = (
  e,
  judge-of-known www_rec (parse_caa (www_effective apex_rec www_rec).0) _ cert known
      ∙ ap (λ rs. (judge www_rec (parse_caa rs) true cert).0) e,
)

www_verdict-known :
    (apex_rec www_rec : Lookup) (cert : ServedCert) (b : Bool)
    → (www_verdict apex_rec www_rec cert).permitted ≡ some b
    → (www_effective apex_rec www_rec).1 ≡ true
unfolding www_verdict caa_verdict
www_verdict-known apex_rec www_rec cert b h =
    judge-known www_rec (parse_caa (www_effective apex_rec www_rec).0)
      (www_effective apex_rec www_rec).1 cert b h

-- A verdict for www, either way, rests on records that some zone answered: those of www where it
-- has any, and else those of the apex, when www answered that it has none and the apex answered
-- too. The records reported as in force are then exactly these, and the verdict is the judgement
-- of exactly these for the certificate that www serves.
pub www_verdict_sound :
    (apex_rec www_rec : Lookup) (cert : ServedCert) (b : Bool)
    → (www_verdict apex_rec www_rec cert).permitted ≡ some b
    → ((has_records www_rec ≡ true) × JudgedOn apex_rec www_rec cert www_rec.records)
      ⊎ ((answered www_rec ≡ true)
          × (is_nil www_rec.records ≡ true)
          × (answered apex_rec ≡ true)
          × JudgedOn apex_rec www_rec cert apex_rec.records)
www_verdict_sound apex_rec www_rec cert b h =
    let known = www_verdict-known apex_rec www_rec cert b h in
    let judged : (records : List Bytes)
        → (www_effective apex_rec www_rec).0 ≡ records
        → JudgedOn apex_rec www_rec cert records =
      λ records e. www_verdict-JudgedOn apex_rec www_rec cert records known e in
    elim (www_effective-known apex_rec www_rec known) [
      | inl (has, e) ↦ inl (has, judged _ e)
      | inr (own, none_there, above, e) ↦ inr (own, none_there, above, judged _ e)
    ]
