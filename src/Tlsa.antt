-- ===== src/Tlsa.antt =====
-- tlsa.go: TLSA records against the certificates a server presents. A certificate is its raw bytes
-- and those of its public key; SHA-256 and SHA-512 are parameters.
pub mod Match
use domaintest.Prelude.{
  leb, if◌then◌else◌, is_nil, take, any, ℤ, gtb, ℤ_beq, ℕ, ◌+◌, ◌-◌, ◌*◌, Bool, false, not, ◌&&◌,
  ◌||◌, Option, none, some, List, [], ◌∷◌, pos,
}
use domaintest.Text.Numbers.{atoi, is_digit}
use domaintest.Text.{Bytes, ◌=?◌, fields, join}

-- `TLSANone`, `TLSAUnknown`, `TLSAMatch`, `TLSAMismatch`
pub data TlsaResult : Type 0 where
  no_record unknown match mismatch : TlsaResult

-- `tlsaRecord`
pub record TlsaRecord : Type 0 where
  pub usage : ℤ
  pub selector : ℤ
  pub matching : ℤ
  pub digest : Bytes

-- What the code reads of an `x509.Certificate`.
pub record Certificate : Type 0 where
  pub raw : Bytes
  pub raw_public_key : Bytes

pub record Hashes : Type 0 where
  pub sha256 : Bytes → Bytes
  pub sha512 : Bytes → Bytes

-- `hex.DecodeString`
hex_digit : ℕ → Option ℕ
hex_digit c =
    if is_digit c
    then some (c - b'0')
    else if leb b'a' c && leb c b'f'
    then some (c - b'a' + 10)
    else if leb b'A' c && leb c b'F'
    then some (c - b'A' + 10)
    else none

abbrev hex_byte : Option ℕ → Option ℕ → Option Bytes → Option Bytes
hex_byte (some h) (some l) (some rest) = some ((16 * h + l) ∷ rest)
hex_byte _ _ _ = none

unfoldable pub decode_hex : Bytes → Option Bytes
unfolding hex_digit
decode_hex [] = some []
decode_hex (c ∷ []) = none
decode_hex (c ∷ d ∷ s) = hex_byte (hex_digit c) (hex_digit d) (decode_hex s)

-- A number field with its upper bound: `err != nil || n > hi` refuses the record.
unfoldable pub small_number : Bytes → ℕ → Option ℤ
small_number s hi = let (n, fine) = atoi s in if not fine || gtb n hi then none else some n

finish_tlsa : Option ℤ → Option ℤ → Option ℤ → Option Bytes → Option TlsaRecord
finish_tlsa (some u) (some s) (some m) (some (b ∷ bs)) =
    some (record { usage = u; selector = s; matching = m; digest = b ∷ bs })
finish_tlsa _ _ _ _ = none

parse_tlsa_fields : List Bytes → Option TlsaRecord
parse_tlsa_fields (u ∷ s ∷ m ∷ hex ∷ more) =
    finish_tlsa (small_number u 3) (small_number s 1) (small_number m 2)
      (decode_hex (join (hex ∷ more) []))
parse_tlsa_fields _ = none

-- `parseTLSA` and `parseTLSARecords`
unfoldable pub parse_tlsa : Bytes → Option TlsaRecord
unfolding parse_tlsa_fields finish_tlsa
parse_tlsa rdata = parse_tlsa_fields (fields rdata)

unfoldable pub parse_tlsa_records : List Bytes → List TlsaRecord
parse_tlsa_records [] = []
parse_tlsa_records (r ∷ rest) = elim (parse_tlsa r) [
  | some rec ↦ rec ∷ parse_tlsa_records rest
  | none ↦ parse_tlsa_records rest
]

abbrev pub is_number : ℤ → ℕ → Bool
is_number z n = ℤ_beq z (pos n)

module _ (hash : Hashes) where
  -- `tlsaDigest`
  unfoldable pub tlsa_digest : Certificate → ℤ → ℤ → Bytes
  tlsa_digest c selector matching =
      let bytes = if is_number selector 1 then c.raw_public_key else c.raw in
      if is_number matching 1
      then hash.sha256 bytes
      else if is_number matching 2
      then hash.sha512 bytes
      else bytes

  -- The certificates a record may be about.
  unfoldable pub candidates : TlsaRecord → List Certificate → List Certificate
  candidates rec chain =
      if is_number rec.usage 0 || is_number rec.usage 2 then chain else take 1 chain

  abbrev pub fits : TlsaRecord → Certificate → Bool
  fits rec c = tlsa_digest c rec.selector rec.matching =? rec.digest

  -- `tlsaMatches`
  unfoldable pub tlsa_matches : TlsaRecord → List Certificate → Bool → Bool
  tlsa_matches rec chain pkix_valid =
      if is_nil chain
      then false
      else if (is_number rec.usage 0 || is_number rec.usage 1) && not pkix_valid
      then false
      else any (fits rec) (candidates rec chain)

  -- `matchTLSA`
  unfoldable pub match_tlsa : List TlsaRecord → List Certificate → Bool → TlsaResult
  match_tlsa records chain pkix_valid =
      if is_nil records
      then TlsaResult.no_record
      else if any (λ rec. tlsa_matches rec chain pkix_valid) records
      then TlsaResult.match
      else TlsaResult.mismatch
