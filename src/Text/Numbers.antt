-- ===== src/Text/Numbers.antt =====
-- `strconv`: decimal numbers as Go reads and prints them.
use domaintest.Prelude.{
  ℕ, zero, suc, ◌+◌, ◌-◌, ◌*◌, ◌/◌, ◌%◌, ◌^◌, Bool, true, false, not, ◌&&◌, ◌||◌, [], ◌∷◌, ltb, leb,
  ◌==◌, if◌then◌else◌, is_nil, all, ℤ, pos, negsuc,
}
use domaintest.Text.{Bytes}

abbrev pub is_digit : ℕ → Bool
is_digit c = leb b'0' c && leb c b'9'

-- The value of a run of digits.
unfoldable pub digits_value : ℕ → Bytes → ℕ
digits_value n [] = n
digits_value n (c ∷ s) = digits_value (n * 10 + (c - b'0')) s

-- `strconv.ParseInt(s, 10, 64)` and `strconv.Atoi`: the value, and whether there was no error.
-- A syntax error gives 0, a value out of range the nearest bound.
abbrev pub max_int : ℕ
max_int = 2 ^ 63 - 1

abbrev parse_magnitude : Bool → Bytes → ℤ × Bool
parse_magnitude neg s =
    if is_nil s || not (all is_digit s)
    then (pos 0, false)
    else let n = digits_value 0 s in
      if neg
      then (if n == 0
          then (pos 0, true)
          else if ltb max_int (n - 1)
          then (negsuc max_int, false)
          else (negsuc (n - 1), true))
      else (if ltb max_int n then (pos max_int, false) else (pos n, true))

unfoldable pub atoi : Bytes → ℤ × Bool
unfolding digits_value
atoi [] = (pos 0, false)
atoi (c ∷ s) =
    if c == b'-'
    then parse_magnitude true s
    else if c == b'+'
    then parse_magnitude false s
    else parse_magnitude false (c ∷ s)

-- `strconv.Itoa` of a number that is not negative; the fuel is the number of digits at most.
itoa_from : ℕ → ℕ → Bytes → Bytes
itoa_from zero n out = out
itoa_from (suc f) n out =
    let more = itoa_from f (n / 10) ((b'0' + n % 10) ∷ out) in
    if ltb n 10 then (b'0' + n) ∷ out else more

unfoldable pub itoa : ℕ → Bytes
unfolding itoa_from
itoa n = itoa_from (n + 1) n []

-- `%d` of an integer.
unfoldable pub itoa_int : ℤ → Bytes
unfolding itoa
itoa_int (pos n) = itoa n
itoa_int (negsuc n) = b'-' ∷ itoa (n + 1)
