-- ===== src/Records/Parse.antt =====
-- records.go: the presentation format of resource records, as dig prints it.
use domaintest.Records.{Rr, wire_name_len}
use domaintest.Prelude.{
  ℕ, zero, suc, ◌+◌, ◌-◌, ◌*◌, ◌%◌, Bool, true, false, not, ◌&&◌, ◌||◌, List, [], ◌∷◌, ◌++◌, Option,
  none, some, pos, if◌then◌else◌, length, leb, ◌==◌, any, drop, ℤ, ltb,
}
use domaintest.Text.Numbers.{is_digit, atoi}
use domaintest.Text.{Bytes, ◌=?◌, to_lower, trim_space, join, lit, fields}

-- `strings.ReplaceAll(s, "''", "'")`
undouble : Bytes → Bytes
undouble [] = []
undouble (c ∷ []) = c ∷ []
undouble (c ∷ d ∷ s) =
    let pair = undouble s in
    let single = undouble (d ∷ s) in if c == b'\'' && d == b'\'' then b'\'' ∷ pair else c ∷ single

-- A text that ends in a single quote, without it.
unended : Bytes → Option Bytes
unended [] = none
unended (c ∷ []) = if c == b'\'' then some [] else none
unended (c ∷ d ∷ s) = elim (unended (d ∷ s)) [ some t ↦ some (c ∷ t) | none ↦ none ]

unquoted : Bytes → Bytes
unquoted [] = []
unquoted (c ∷ s) = if c == b'\'' then (elim (unended s) [ some t ↦ t | none ↦ c ∷ s ]) else c ∷ s

-- `unquoteYAML`
unfoldable pub unquote_yaml : Bytes → Bytes
unfolding unquoted unended undouble
unquote_yaml s = undouble (unquoted (trim_space s))

abbrev is_blank : ℕ → Bool
is_blank c = c == b' ' || c == b'\t'

skip_blanks : Bytes → Bytes
skip_blanks [] = []
skip_blanks (c ∷ s) = let rest = skip_blanks s in if is_blank c then rest else c ∷ s

-- What stands from the first blank on; `none` if there is none.
from_blank : Bytes → Option Bytes
from_blank [] = none
from_blank (c ∷ s) = let rest = from_blank s in if is_blank c then some (c ∷ s) else rest

-- The loop of `afterFields`, which returns "" where a field is not followed by a blank.
skip_fields : ℕ → Bytes → Bytes
skip_fields zero rest = trim_space rest
skip_fields (suc n) rest = elim (from_blank (skip_blanks rest)) [
  | none ↦ []
  | some more ↦ skip_fields n more
]

unfoldable pub after_fields : Bytes → ℕ → Bytes
unfolding skip_fields skip_blanks from_blank
after_fields text n = skip_fields n text

-- `isDigits(rdata[i+1:i+4])` and the value of the three digits as a byte.
abbrev three_digits : ℕ → ℕ → ℕ → Bool
three_digits a b c = is_digit a && (is_digit b && is_digit c)

abbrev pub decimal_byte : ℕ → ℕ → ℕ → ℕ
decimal_byte a b c = ((a - b'0') * 100 + (b - b'0') * 10 + (c - b'0')) % 256

-- `decodeEscape` on what follows the backslash: the byte, and how many characters it took.
unfoldable pub decode_escape : Bytes → ℕ × ℕ
decode_escape [] = (b'\\', 0)
decode_escape (a ∷ []) = (a, 1)
decode_escape (a ∷ b ∷ []) = (a, 1)
decode_escape (a ∷ b ∷ c ∷ s) = if three_digits a b c then (decimal_byte a b c, 3) else (a, 1)

-- The loop of `txtStrings`: characters still to be passed over, whether a quote is open, and the
-- text built since it was opened.
unfoldable pub scan_txt : ℕ → Bool → Bytes → Bytes → List Bytes
unfolding decode_escape
scan_txt skip in_quote b [] = []
scan_txt (suc k) in_quote b (c ∷ s) = scan_txt k in_quote b s
scan_txt zero true b (c ∷ s) =
    let closed = b ∷ scan_txt 0 false [] s in
    let escaped = scan_txt (decode_escape s).1 true (b ++ (decode_escape s).0 ∷ []) s in
    let plain = scan_txt 0 true (b ++ c ∷ []) s in
    if c == b'"' then closed else if c == b'\\' then escaped else plain
scan_txt zero false b (c ∷ s) = scan_txt 0 (c == b'"') b s

unfoldable pub txt_strings : Bytes → List Bytes
unfolding scan_txt
txt_strings rdata =
    if not (any (λ c. c == b'"') rdata) then rdata ∷ [] else scan_txt 0 false [] rdata

-- `joinTXT`
unfoldable pub join_txt : Bytes → Bytes
join_txt rdata = join (txt_strings rdata) []

-- `rr.RDLen += 1 + len(str)` for each string.
unfoldable pub txt_wire_len : List Bytes → ℕ
txt_wire_len [] = 0
txt_wire_len (s ∷ rest) = 1 + length s + txt_wire_len rest

abbrev nth : List Bytes → ℕ → Bytes
nth xs i = elim (drop i xs) [ [] ↦ [] | x ∷ rest ↦ x ]

-- The fields of the record once its type and rdata are known.
unfoldable pub finish_rr : Bytes → ℤ → Bytes → Bytes → Rr
unfolding txt_wire_len
finish_rr owner ttl rtype rdata =
    if rtype =? lit "TXT"
    then record {
      owner = owner;
      ttl = ttl;
      rtype = rtype;
      rdata = join (txt_strings rdata) [];
      rdlen = txt_wire_len (txt_strings rdata);
    }
    else record {
      owner = owner;
      ttl = ttl;
      rtype = rtype;
      rdata = rdata;
      rdlen = if rtype =? lit "CNAME" then wire_name_len rdata else 0;
    }

-- `parseRR`
unfoldable pub parse_rr : Bytes → Option Rr
unfolding finish_rr
parse_rr text =
    let f = fields text in
    if ltb (length f) 2
    then none
    else let (ttl, has_ttl) = atoi (nth f 1) in
      let i = if has_ttl then 2 else 1 in
      let j = if ltb i (length f) && nth f i =? lit "IN" then i + 1 else i in
      if leb (length f) j
      then none
      else some (
          finish_rr (to_lower (nth f 0)) (if has_ttl then ttl else pos 0) (nth f j)
            (after_fields text (j + 1)))
