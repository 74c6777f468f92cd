-- ===== src/Text/Utf8.antt =====
-- UTF-8 as Go's `strings` reads it.
use domaintest.Prelude.{ltb, leb, ◌==◌, if◌then◌else◌, ℕ, zero, suc, Bool, ◌&&◌, [], ◌∷◌}
use domaintest.Text.{Bytes}

-- The length of the UTF-8 character at the head of a text, 0 if its bytes are not valid.
abbrev is_tail : ℕ → Bool
is_tail c = leb 0x80 c && leb c 0xBF

abbrev second_of_three : ℕ → ℕ → Bool
second_of_three c d =
    if c == 0xE0
    then leb 0xA0 d && leb d 0xBF
    else if c == 0xED
    then leb 0x80 d && leb d 0x9F
    else is_tail d

abbrev second_of_four : ℕ → ℕ → Bool
second_of_four c d =
    if c == 0xF0
    then leb 0x90 d && leb d 0xBF
    else if c == 0xF4
    then leb 0x80 d && leb d 0x8F
    else is_tail d

rune_len : Bytes → ℕ
rune_len [] = 0
rune_len (c ∷ []) = if ltb c 0x80 then 1 else 0
rune_len (c ∷ d ∷ []) =
    if ltb c 0x80 then 1 else if leb 0xC2 c && leb c 0xDF && is_tail d then 2 else 0
rune_len (c ∷ d ∷ e ∷ []) =
    if ltb c 0x80
    then 1
    else if leb 0xC2 c && leb c 0xDF && is_tail d
    then 2
    else if leb 0xE0 c && leb c 0xEF && second_of_three c d && is_tail e
    then 3
    else 0
rune_len (c ∷ d ∷ e ∷ f ∷ s) =
    if ltb c 0x80
    then 1
    else if leb 0xC2 c && leb c 0xDF && is_tail d
    then 2
    else if leb 0xE0 c && leb c 0xEF && second_of_three c d && is_tail e
    then 3
    else if leb 0xF0 c && leb c 0xF4 && second_of_four c d && is_tail e && is_tail f
    then 4
    else 0

-- `strings.ToValidUTF8` with nothing for what is not valid; the number counts bytes of a character
-- still to be kept.
valid_from : ℕ → Bytes → Bytes
valid_from k [] = []
valid_from (suc k) (c ∷ s) = c ∷ valid_from k s
valid_from zero (c ∷ s) = elim (rune_len (c ∷ s)) [
  | zero ↦ valid_from 0 s
  | suc k ↦ c ∷ valid_from k s
]

unfoldable pub to_valid_utf8 : Bytes → Bytes
unfolding rune_len valid_from
to_valid_utf8 s = valid_from 0 s
