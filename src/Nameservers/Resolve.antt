-- ===== src/Nameservers/Resolve.antt =====
-- What becomes of each nameserver name.
use domaintest.Prelude.{
  if◌then◌else◌, is_none, length, is_nil, any, keep, ◌≡◌, Bool, not, ◌&&◌, ◌||◌, Option, List, [],
  ◌∷◌, ◌++◌,
}
use domaintest.Nameservers.{NsReport, all_addrs}
use domaintest.Addr.{Addr, NetIp}
use domaintest.Names.{Dpdomain}
use domaintest.Records.{Lookup, answered, addrs}
use domaintest.Text.{Bytes, lit, ◌=?◌}

module _ (net : NetIp) (dp : Dpdomain) (registrable : Bytes → Option Bytes) where
  module _ (lookup : Bytes → Bytes → Lookup) where
    -- Both lookups of the addresses of a name were answered; they brought an address; one of them
    -- followed an alias.
    abbrev pub both_answered : Bytes → Bool
    both_answered n = answered (lookup n (lit "A")) && answered (lookup n (lit "AAAA"))

    abbrev pub has_address : Bytes → Bool
    has_address n =
        not (is_nil (addrs net (lookup n (lit "A")) ++ addrs net (lookup n (lit "AAAA"))))

    abbrev pub is_alias : Bytes → Bool
    is_alias n =
        not (is_nil (lookup n (lit "A")).cname) || not (is_nil (lookup n (lit "AAAA")).cname)

    -- The name has an entry among the addresses.
    abbrev pub has_entry : Bytes → List (Bytes × List Addr) → Bool
    has_entry n m = any (λ e. e.0 =? n) m

    -- The addresses that the report has for a name, by its first entry.
    unfoldable pub addresses_of : Bytes → List (Bytes × List Addr) → List Addr
    addresses_of n [] = []
    addresses_of n (e ∷ rest) = let later = addresses_of n rest in if e.0 =? n then e.1 else later

    -- All that the two lookups brought, the A records first.
    abbrev pub found_for : Bytes → List Addr
    found_for x = addrs net (lookup x (lit "A")) ++ addrs net (lookup x (lit "AAAA"))

    abbrev pub is_resolved : List Bytes → Bytes → Bool
    is_resolved names x = any (λ n. n =? x && (both_answered n && has_address n)) names

    -- What the report of the resolution says of the names.
    abbrev pub IsResolved : List Bytes → NsReport → Type 0
    IsResolved names r =
        (r.count ≡ length names)
        × (r.unresolved ≡ keep (λ n. not (both_answered n)) names)
        × (r.unresolvable ≡ keep (λ n. both_answered n && not (has_address n)) names)
        × (r.ns_cname ≡ keep is_alias names)
        × ((x : Bytes) → has_entry x r.addrs ≡ is_resolved names x)
        × ((x : Bytes) → addresses_of x r.addrs ≡ (if is_resolved names x then found_for x else []))
        × (is_none r.ipv4_prefixes_24 ≡ is_nil (all_addrs r.addrs))
