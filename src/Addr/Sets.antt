-- ===== src/Addr/Sets.antt =====
-- Lists of addresses as sets.
use domaintest.Prelude.{◌≡◌, refl, ap, true, false, ◌||◌, List, [], ◌∷◌, ◌++◌, arith}
use domaintest.Addr.{Addr, addr_beq, addr_beq_iff, mem_addr}

pub addr_beq_comm : (a b : Addr) → addr_beq a b ≡ addr_beq b a
unfolding addr_beq
addr_beq_comm a b = ground (arith, addr_beq_iff a b, addr_beq_iff b a)

pub addr_beq_refl : (a : Addr) → addr_beq a a ≡ true
addr_beq_refl a = (addr_beq_iff a a).1 refl

pub mem_addr-append :
    (a : Addr) (xs ys : List Addr) → mem_addr a (xs ++ ys) ≡ (mem_addr a xs || mem_addr a ys)
unfolding mem_addr
mem_addr-append a [] ys = refl
mem_addr-append a (x ∷ xs) ys = ground (arith, mem_addr-append a xs ys)

-- No address stands twice in the list.
abbrev pub AreDistinct : List Addr → Type 0
AreDistinct [] = Unit
AreDistinct (x ∷ xs) = (mem_addr x xs ≡ false) × AreDistinct xs

pub AreDistinct-concat :
    (xs : List Addr) (x : Addr)
    → AreDistinct xs
    → mem_addr x xs ≡ false
    → AreDistinct (xs ++ x ∷ [])
unfolding mem_addr
AreDistinct-concat [] x d h = (refl, tt)
AreDistinct-concat (y ∷ xs) x d h = (
  ground (arith, mem_addr-append y xs (x ∷ []), addr_beq_comm x y),
  AreDistinct-concat xs x d.1 (ground arith),
)

-- Equal addresses are members of the same lists.
pub mem_addr-eq :
    (a b : Addr) (xs : List Addr) → addr_beq a b ≡ true → mem_addr a xs ≡ mem_addr b xs
mem_addr-eq a b xs h = ap (λ x. mem_addr x xs) ((addr_beq_iff a b).0 h)
