-- ===== src/Wildcard/Addresses.antt =====
-- The addresses of a wildcard report, and how address lists are compared.
use domaintest.Prelude.{
  Bool-cases, any, ◌≡◌, ◌≢◌, inl, inr, Bool, true, false, ◌||◌, List, [], ◌∷◌, ◌++◌, map, arith,
}
use domaintest.Addr.Sets.{
  AreDistinct, AreDistinct-concat, mem_addr-append, mem_addr-eq, addr_beq_refl, addr_beq_comm,
}
use domaintest.Addr.{Addr, NetIp, mem_addr, unmap, addr_beq_iff}
use domaintest.Wildcard.{
  WildProbe, union_onto, union_addrs, union_probes, probe_addrs, same_address_set,
}

module _ (net : NetIp) where
  union_onto-AreDistinct :
      (ips out : List Addr) → AreDistinct out → AreDistinct (union_onto net out ips)
  unfolding union_onto
  union_onto-AreDistinct [] out d = d
  union_onto-AreDistinct (ip ∷ ips) out d = elim (Bool-cases (mem_addr (unmap ip) out)) [
    | inl old ↦ rw old (union_onto-AreDistinct ips out d)
    | inr new ↦ rw new (
        union_onto-AreDistinct ips (out ++ unmap ip ∷ []) (AreDistinct-concat out (unmap ip) d new))
  ]

  mem_addr-union_onto :
      (a : Addr) (ips out : List Addr)
      → mem_addr a (union_onto net out ips) ≡ (mem_addr a out || mem_addr a (map unmap ips))
  unfolding union_onto mem_addr
  mem_addr-union_onto a [] out = ground arith
  mem_addr-union_onto a (ip ∷ ips) out = ground (
    arith,
    mem_addr-union_onto a ips out,
    mem_addr-union_onto a ips (out ++ unmap ip ∷ []),
    mem_addr-append a out (unmap ip ∷ []),
    mem_addr-eq (unmap ip) a out,
  )

  union_probes-AreDistinct :
      (probes : List WildProbe) (out : List Addr)
      → AreDistinct out
      → AreDistinct (union_probes net out probes)
  unfolding union_probes
  union_probes-AreDistinct [] out d = d
  union_probes-AreDistinct (p ∷ rest) out d =
      union_probes-AreDistinct rest (union_onto net out (probe_addrs net p))
        (union_onto-AreDistinct (probe_addrs net p) out d)

  -- The address, in its IPv4 form if it has one, came back for some probe.
  abbrev pub seen_by_some : Addr → List WildProbe → Bool
  seen_by_some a = any (λ p. mem_addr a (map unmap (probe_addrs net p)))

  mem_addr-union_probes :
      (a : Addr) (probes : List WildProbe) (out : List Addr)
      → mem_addr a (union_probes net out probes) ≡ (mem_addr a out || seen_by_some a probes)
  unfolding union_probes
  mem_addr-union_probes a [] out = ground arith
  mem_addr-union_probes a (p ∷ rest) out = ground (
    arith,
    mem_addr-union_probes a rest (union_onto net out (probe_addrs net p)),
    mem_addr-union_onto a (probe_addrs net p) out,
  )

  -- The addresses of a report are those that came back for some probe, each once.
  pub union_addrs_lem :
      (probes : List WildProbe) (a : Addr)
      → AreDistinct (union_addrs net probes)
        × (mem_addr a (union_addrs net probes) ≡ seen_by_some a probes)
  unfolding union_addrs mem_addr
  union_addrs_lem probes a =
      (union_probes-AreDistinct probes [] tt, mem_addr-union_probes a probes [])

-- The comparison of address lists is not symmetric on lists that repeat an address: two different
-- addresses are found to be the same set as the first of them twice, and not the other way round.
pub same_address_set_repeated :
    (x y : Addr)
    → unmap x ≡ x
    → unmap y ≡ y
    → x ≢ y
    → (same_address_set (x ∷ y ∷ []) (x ∷ x ∷ []) ≡ true)
      × (same_address_set (x ∷ x ∷ []) (x ∷ y ∷ []) ≡ false)
unfolding same_address_set mem_addr
same_address_set_repeated x y p q ne =
    rw (p, q) (ground (arith, addr_beq_refl x, addr_beq_iff x y, addr_beq_comm x y))
