-- ===== src/Records/RoundTrip.antt =====
-- TXT data in presentation format: quoting character-strings and reading them back.
use domaintest.Text.Numbers.{is_digit}
use domaintest.Prelude.{
  ℕ, ◌+◌, ◌/◌, ◌%◌, ◌<◌, true, ◌&&◌, ◌||◌, [], ◌∷◌, ◌++◌, if◌then◌else◌, ◌==◌, ◌≡◌, All, leb, List,
  arith, false, append-nil, append_assoc, ap, refl, ◌∙◌,
}
use domaintest.Records.Parse.{scan_txt, decode_escape, txt_strings}
use domaintest.Text.{Bytes}

-- How one byte of a character-string is written (RFC 1035 5.1): `\"`, `\\`, `\DDD` or itself.
abbrev quote_byte : ℕ → Bytes
quote_byte c =
    if c == b'"' || c == b'\\'
    then b'\\' ∷ c ∷ []
    else if leb 32 c && leb c 126
    then c ∷ []
    else b'\\' ∷ (b'0' + c / 100) ∷ (b'0' + c / 10 % 10) ∷ (b'0' + c % 10) ∷ []

quote_bytes : Bytes → Bytes
quote_bytes [] = []
quote_bytes (c ∷ s) = quote_byte c ++ quote_bytes s

-- The character-strings of a TXT record, quoted, with a space between them.
unfoldable pub quote_strings : List Bytes → Bytes
unfolding quote_bytes
quote_strings [] = []
quote_strings (s ∷ rest) = b'"' ∷ (quote_bytes s ++ b'"' ∷ b' ' ∷ quote_strings rest)

abbrev pub IsByteText : Bytes → Type 0
IsByteText = All (λ c. c < 256)

-- A character that is not a digit stands for itself after a backslash.
decode_escape_self : (c : ℕ) (rest : Bytes) → is_digit c ≡ false → decode_escape (c ∷ rest) ≡ (c, 1)
unfolding decode_escape
decode_escape_self c [] h = refl
decode_escape_self c (d ∷ []) h = refl
decode_escape_self c (d ∷ e ∷ rest) h = ground arith

decode_escape_decimal :
    (c : ℕ) (rest : Bytes)
    → c < 256
    → decode_escape ((b'0' + c / 100) ∷ (b'0' + c / 10 % 10) ∷ (b'0' + c % 10) ∷ rest) ≡ (c, 3)
unfolding decode_escape
decode_escape_decimal c rest h = ground arith

module _ (b : Bytes) (c : ℕ) (rest : Bytes) where
  scan_txt_plain :
      (c == b'"') ≡ false
      → (c == b'\\') ≡ false
      → scan_txt 0 true b (c ∷ rest) ≡ scan_txt 0 true (b ++ c ∷ []) rest
  unfolding scan_txt
  scan_txt_plain h k = rw (h, k)

  scan_txt_special :
      is_digit c ≡ false → scan_txt 0 true b (b'\\' ∷ c ∷ rest) ≡ scan_txt 0 true (b ++ c ∷ []) rest
  unfolding scan_txt
  scan_txt_special h = rw (decode_escape_self c rest h)

  scan_txt_decimal :
      c < 256
      → scan_txt 0 true b (b'\\' ∷ (b'0' + c / 100) ∷ (b'0' + c / 10 % 10) ∷ (b'0' + c % 10) ∷ rest)
        ≡ scan_txt 0 true (b ++ c ∷ []) rest
  unfolding scan_txt
  scan_txt_decimal h = rw (decode_escape_decimal c rest h)

  scan_txt-quote_byte :
      c < 256 → scan_txt 0 true b (quote_byte c ++ rest) ≡ scan_txt 0 true (b ++ c ∷ []) rest
  scan_txt-quote_byte h = ground (arith, scan_txt_plain, scan_txt_special, scan_txt_decimal)

scan_txt-quote_bytes :
    (s b rest : Bytes)
    → IsByteText s
    → scan_txt 0 true b (quote_bytes s ++ rest) ≡ scan_txt 0 true (b ++ s) rest
unfolding quote_bytes
scan_txt-quote_bytes [] b rest h = rw append-nil
scan_txt-quote_bytes (c ∷ s) b rest h = rw (append_assoc (quote_byte c) (quote_bytes s) rest) (
    scan_txt-quote_byte b c (quote_bytes s ++ rest) h.0
    ∙ scan_txt-quote_bytes s (b ++ c ∷ []) rest h.1
    ∙ rw append_assoc)

scan_txt_open : (s : Bytes) → scan_txt 0 false [] (b'"' ∷ s) ≡ scan_txt 0 true [] s
unfolding scan_txt
scan_txt_open s = refl

scan_txt_close : (b s : Bytes) → scan_txt 0 true b (b'"' ∷ b' ' ∷ s) ≡ b ∷ scan_txt 0 false [] s
unfolding scan_txt
scan_txt_close b s = refl

scan_txt_end : scan_txt 0 false [] [] ≡ []
unfolding scan_txt
scan_txt_end = refl

scan_txt-quote_strings :
    (strs : List Bytes) → All IsByteText strs → scan_txt 0 false [] (quote_strings strs) ≡ strs
unfolding quote_strings
scan_txt-quote_strings [] h = scan_txt_end
scan_txt-quote_strings (s ∷ rest) h =
    scan_txt_open _
    ∙ scan_txt-quote_bytes s [] (b'"' ∷ b' ' ∷ quote_strings rest) h.0
    ∙ scan_txt_close s (quote_strings rest)
    ∙ ap (◌∷◌ s) (scan_txt-quote_strings rest h.1)

-- Reading the quoted form of the character-strings of a TXT record gives the strings back, for
-- at least one string, of any bytes: quotes, backslashes and bytes outside ASCII included.
pub txt_strings-quote_strings :
    (s : Bytes) (rest : List Bytes)
    → All IsByteText (s ∷ rest)
    → txt_strings (quote_strings (s ∷ rest)) ≡ s ∷ rest
unfolding txt_strings quote_strings
txt_strings-quote_strings s rest h = scan_txt-quote_strings (s ∷ rest) h
