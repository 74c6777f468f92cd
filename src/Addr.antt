-- ===== src/Addr.antt =====
-- Addresses: the part of `net/netip` that the program uses, and addr.go. Parsing and printing an
-- address are fields of a record; so is `ipnorm.Reserved`, which is not in the repository.
pub mod Reserved
pub mod Sets
use domaintest.Prelude.{
  ℕ, ◌/◌, ◌%◌, ◌^◌, Bool, true, false, ◌&&◌, ◌||◌, List, [], ◌∷◌, Option, ◌==◌, if◌then◌else◌, ◌≡◌,
  ◌↔◌, arith,
}
use domaintest.Text.Laws.{=?_iff}
use domaintest.Text.{Bytes, ◌=?◌}

-- `netip.Addr`: the bits as a number, and the zone of an IPv6 address.
pub data Addr : Type 0 where
  v4 : ℕ → Addr
  v6 : ℕ → Bytes → Addr

-- `Addr.Unmap`: an IPv4-mapped IPv6 address becomes the IPv4 address.
unfoldable pub unmap : Addr → Addr
unmap (Addr.v4 n) = Addr.v4 n
unmap (Addr.v6 n z) = if n / 2 ^ 32 == 0xFFFF then Addr.v4 (n % 2 ^ 32) else Addr.v6 n z

abbrev pub is4 : Addr → Bool
is4 (Addr.v4 n) = true
is4 (Addr.v6 n z) = false

-- `a == b`
unfoldable pub addr_beq : Addr → Addr → Bool
addr_beq (Addr.v4 m) (Addr.v4 n) = m == n
addr_beq (Addr.v6 m y) (Addr.v6 n z) = m == n && y =? z
addr_beq _ _ = false

pub addr_beq_iff : (a b : Addr) → (addr_beq a b ≡ true) ↔ (a ≡ b)
unfolding addr_beq
addr_beq_iff (Addr.v4 m) (Addr.v4 n) = ground arith
addr_beq_iff (Addr.v6 m y) (Addr.v6 n z) = ground (arith, =?_iff y z)
addr_beq_iff _ _ = ground arith

pub unmap_idem : (a : Addr) → unmap (unmap a) ≡ unmap a
unfolding unmap
unmap_idem a = ground arith

-- `netip.ParseAddr`, `Addr.String` and `ipnorm.Reserved` (the empty text for a public address).
pub record NetIp : Type 0 where
  pub parse_addr : Bytes → Option Addr
  pub addr_string : Addr → Bytes
  pub reserved : Addr → Bytes

unfoldable pub mem_addr : Addr → List Addr → Bool
mem_addr a [] = false
mem_addr a (b ∷ bs) = addr_beq b a || mem_addr a bs
