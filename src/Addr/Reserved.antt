-- ===== src/Addr/Reserved.antt =====
-- addr.go: reserved addresses, and texts without repetition.
use domaintest.Prelude.{
  if◌then◌else◌, Bool-cases, is_nil, All, ◌≡◌, sym, ap, inl, inr, true, not, ◌||◌, List, [], ◌∷◌,
  ◌++◌, arith,
}
use domaintest.Addr.{Addr, NetIp}
use domaintest.Text.Laws.{IsDistinct, IsDistinct-concat, contains-append, =?_iff}
use domaintest.Text.{Bytes, ◌=?◌, contains, lit}

module _ (net : NetIp) where
  unfoldable pub reserved_reason : Addr → Bytes
  reserved_reason ip = net.reserved ip

  -- `splitReserved`: the public addresses, and a line for each reserved one.
  unfoldable pub split_reserved : List Addr → List Addr × List Bytes
  unfolding reserved_reason
  split_reserved [] = ([], [])
  split_reserved (ip ∷ rest) =
      let (public, reserved) = split_reserved rest in
      let reason = reserved_reason ip in
      if not (is_nil reason)
      then (public, (net.addr_string ip ++ (lit " (" ++ (reason ++ lit ")"))) ∷ reserved)
      else (ip ∷ public, reserved)

  -- No reserved address is among the public ones.
  pub split_reserved-All :
      (addrs : List Addr) → All (λ ip. reserved_reason ip ≡ []) (split_reserved addrs).0
  unfolding split_reserved
  split_reserved-All [] = tt
  split_reserved-All (ip ∷ rest) = ground (arith, split_reserved-All rest)

-- The loop of `dedupeStrings`; the texts seen are those put out.
dedupe_from : List Bytes → List Bytes → List Bytes
dedupe_from out [] = out
dedupe_from out (s ∷ rest) = dedupe_from (if contains s out then out else out ++ s ∷ []) rest

unfoldable pub dedupe_strings : List Bytes → List Bytes
unfolding dedupe_from
dedupe_strings = dedupe_from []

dedupe_from-IsDistinct :
    (rest out : List Bytes) → IsDistinct out → IsDistinct (dedupe_from out rest)
unfolding dedupe_from
dedupe_from-IsDistinct [] out d = d
dedupe_from-IsDistinct (s ∷ rest) out d = elim (Bool-cases (contains s out)) [
  | inl old ↦ rw old (dedupe_from-IsDistinct rest out d)
  | inr new ↦ rw new (dedupe_from-IsDistinct rest (out ++ s ∷ []) (IsDistinct-concat out s d new))
]

pub dedupe_strings-IsDistinct : (xs : List Bytes) → IsDistinct (dedupe_strings xs)
unfolding dedupe_strings
dedupe_strings-IsDistinct xs = dedupe_from-IsDistinct xs [] tt

contains-eq : (a s : Bytes) (out : List Bytes) → (s =? a) ≡ true → contains a out ≡ contains s out
contains-eq a s out h = ap (λ x. contains x out) (sym ((=?_iff s a).0 h))

contains-dedupe_from :
    (a : Bytes) (rest out : List Bytes)
    → contains a (dedupe_from out rest) ≡ (contains a out || contains a rest)
unfolding dedupe_from contains
contains-dedupe_from a [] out = ground arith
contains-dedupe_from a (s ∷ rest) out = ground (
  arith,
  contains-dedupe_from a rest out,
  contains-dedupe_from a rest (out ++ s ∷ []),
  contains-append a out (s ∷ []),
  contains-eq a s out,
)

pub contains-dedupe_strings :
    (a : Bytes) (xs : List Bytes) → contains a (dedupe_strings xs) ≡ contains a xs
unfolding dedupe_strings contains
contains-dedupe_strings a xs = contains-dedupe_from a xs []

-- The texts that come out are those that go in, each once.
pub dedupe_strings_lem :
    (xs : List Bytes) (a : Bytes)
    → IsDistinct (dedupe_strings xs) × (contains a (dedupe_strings xs) ≡ contains a xs)
dedupe_strings_lem xs a = (dedupe_strings-IsDistinct xs, contains-dedupe_strings a xs)
