-- ===== src/Text.antt =====
-- Go strings as lists of bytes, and the functions of `strings`, `strconv` and `sort` that the
-- program calls. Case mapping is that of ASCII; white space is Unicode's, as UTF-8.
pub mod Laws
pub mod Numbers
pub mod Sort
pub mod Utf8
use Prim.Native.Char.{code}
use Prim.Native.String.{String}
use domaintest.Prelude.{
  ℕ, zero, suc, ◌+◌, ◌/◌, ◌%◌, Bool, true, false, ◌&&◌, ◌||◌, List, [], ◌∷◌, ◌++◌, map, Option,
  none, some, ltb, leb, ◌==◌, if◌then◌else◌, is_nil,
}

abbrev pub Bytes : Type 0
Bytes = List ℕ

-- The UTF-8 bytes of one code point.
utf8 : ℕ → Bytes
utf8 c =
    if ltb c 128
    then c ∷ []
    else if ltb c 2048
    then (192 + c / 64) ∷ (128 + c % 64) ∷ []
    else if ltb c 65536
    then (224 + c / 4096) ∷ (128 + c / 64 % 64) ∷ (128 + c % 64) ∷ []
    else (240 + c / 262144) ∷ (128 + c / 4096 % 64) ∷ (128 + c / 64 % 64) ∷ (128 + c % 64) ∷ []

-- A string literal of the source.
unfoldable pub lit : String → Bytes
unfolding utf8
lit String.[] = []
lit (String.◌∷◌ c s) = utf8 (code c) ++ lit s

-- `a == b`
infix 50 ◌=?◌
unfoldable pub ◌=?◌ : Bytes → Bytes → Bool
[] =? [] = true
(x ∷ xs) =? (y ∷ ys) = x == y && xs =? ys
_ =? _ = false

-- `slices.Contains`
unfoldable pub contains : Bytes → List Bytes → Bool
contains x [] = false
contains x (y ∷ ys) = y =? x || contains x ys

-- `strings.HasPrefix`, with the prefix first.
unfoldable pub has_prefix : Bytes → Bytes → Bool
has_prefix [] s = true
has_prefix (x ∷ p) [] = false
has_prefix (x ∷ p) (y ∷ s) = x == y && has_prefix p s

-- `strings.HasSuffix`, with the suffix first.
unfoldable pub has_suffix : Bytes → Bytes → Bool
has_suffix p [] = is_nil p
has_suffix p (y ∷ s) = p =? (y ∷ s) || has_suffix p s

-- `strings.Contains`, with the part first.
unfoldable pub has_infix : Bytes → Bytes → Bool
has_infix p [] = is_nil p
has_infix p (y ∷ s) = has_prefix p (y ∷ s) || has_infix p s

-- `strings.TrimPrefix`, with the prefix first.
drop_bytes : Bytes → Bytes → Bytes
drop_bytes [] s = s
drop_bytes (x ∷ p) [] = []
drop_bytes (x ∷ p) (y ∷ s) = drop_bytes p s

unfoldable pub trim_prefix : Bytes → Bytes → Bytes
unfolding drop_bytes
trim_prefix p s = if has_prefix p s then drop_bytes p s else s

-- `strings.TrimSuffix`, with the suffix first.
unfoldable pub trim_suffix : Bytes → Bytes → Bytes
trim_suffix p [] = []
trim_suffix p (y ∷ s) = let rest = trim_suffix p s in if p =? (y ∷ s) then [] else y ∷ rest

-- `unicode.ToLower` on ASCII, and `strings.ToLower`.
unfoldable pub lower_byte : ℕ → ℕ
lower_byte c = if leb b'A' c && leb c b'Z' then c + 32 else c

unfoldable pub to_lower : Bytes → Bytes
unfolding lower_byte
to_lower = map lower_byte

-- `strings.EqualFold`
unfoldable pub equal_fold : Bytes → Bytes → Bool
equal_fold a b = to_lower a =? to_lower b

-- The length in bytes of the white space at the head of a text, 0 for none.
abbrev pub ascii_space : ℕ → Bool
ascii_space c = c == 32 || (leb 9 c && leb c 13)

abbrev space_two : ℕ → ℕ → Bool
space_two c d = c == 0xC2 && (d == 0x85 || d == 0xA0)

abbrev space_three : ℕ → ℕ → ℕ → Bool
space_three c d e =
    (c == 0xE1 && d == 0x9A && e == 0x80)
    || (c == 0xE2
        && d == 0x80
        && ((leb 0x80 e && leb e 0x8A) || e == 0xA8 || e == 0xA9 || e == 0xAF))
    || (c == 0xE2 && d == 0x81 && e == 0x9F)
    || (c == 0xE3 && d == 0x80 && e == 0x80)

unfoldable pub space_len : Bytes → ℕ
space_len [] = 0
space_len (c ∷ []) = if ascii_space c then 1 else 0
space_len (c ∷ d ∷ []) = if ascii_space c then 1 else if space_two c d then 2 else 0
space_len (c ∷ d ∷ e ∷ s) =
    if ascii_space c then 1 else if space_two c d then 2 else if space_three c d e then 3 else 0

-- `strings.Fields`: the number counts bytes of a white-space character still to be passed over.
abbrev flush : Bytes → List Bytes → List Bytes
flush [] out = out
flush (c ∷ cs) out = (c ∷ cs) ∷ out

fields_from : ℕ → Bytes → Bytes → List Bytes
fields_from k cur [] = flush cur []
fields_from (suc k) cur (c ∷ s) = fields_from k cur s
fields_from zero cur (c ∷ s) = elim (space_len (c ∷ s)) [
  | zero ↦ fields_from 0 (cur ++ c ∷ []) s
  | suc k ↦ flush cur (fields_from k [] s)
]

unfoldable pub fields : Bytes → List Bytes
unfolding fields_from space_len
fields = fields_from 0 []

-- `strings.TrimSpace`
trim_left_from : ℕ → Bytes → Bytes
trim_left_from k [] = []
trim_left_from (suc k) (c ∷ s) = trim_left_from k s
trim_left_from zero (c ∷ s) = elim (space_len (c ∷ s)) [ zero ↦ c ∷ s | suc k ↦ trim_left_from k s ]

-- Nothing but white space is left.
abbrev blank : Bytes → Bool
blank s = is_nil (trim_left_from 0 s)

trim_right : Bytes → Bytes
trim_right [] = []
trim_right (c ∷ s) = let rest = trim_right s in if blank (c ∷ s) then [] else c ∷ rest

unfoldable pub trim_space : Bytes → Bytes
unfolding trim_right trim_left_from space_len
trim_space s = trim_right (trim_left_from 0 s)

-- `strings.Split` at one byte.
split_from : ℕ → Bytes → Bytes → List Bytes
split_from sep cur [] = cur ∷ []
split_from sep cur (c ∷ s) = elim (c == sep) [
  | true ↦ cur ∷ split_from sep [] s
  | false ↦ split_from sep (cur ++ c ∷ []) s
]

unfoldable pub split : Bytes → ℕ → List Bytes
unfolding split_from
split s sep = split_from sep [] s

-- `strings.Cut` at one byte: what stands before it, and what after it, if it is there.
unfoldable pub cut : Bytes → ℕ → Bytes × Option Bytes
cut [] sep = ([], none)
cut (c ∷ s) sep = let (a, b) = cut s sep in if c == sep then ([], some s) else (c ∷ a, b)

-- `strings.Join`
join_rest : List Bytes → Bytes → Bytes
join_rest [] sep = []
join_rest (p ∷ ps) sep = sep ++ (p ++ join_rest ps sep)

unfoldable pub join : List Bytes → Bytes → Bytes
unfolding join_rest
join [] sep = []
join (p ∷ ps) sep = p ++ join_rest ps sep

-- `firstNonEmpty` of report.go.
unfoldable pub first_non_empty : List Bytes → Bytes
first_non_empty [] = []
first_non_empty (v ∷ vs) = let rest = first_non_empty vs in if is_nil v then rest else v

-- The texts one after the other: what `fmt.Sprintf` makes of the parts of its format.
unfoldable pub concat : List Bytes → Bytes
concat [] = []
concat (p ∷ ps) = p ++ concat ps
