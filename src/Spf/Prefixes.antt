-- ===== src/Spf/Prefixes.antt =====
-- mail.go: the ip4 and ip6 mechanisms of one SPF record that another of its prefixes covers.
use domaintest.Prelude.{
  ltb, ◌==◌, if◌then◌else◌, is_nil, first, ℕ, ◌-◌, ◌*◌, ◌/◌, ◌^◌, Bool, true, false, not, ◌&&◌,
  ◌||◌, Option, none, some, List, [], ◌∷◌, ◌++◌,
}
use domaintest.Text.{Bytes, trim_prefix, ◌=?◌, lit, first_non_empty}
use domaintest.Addr.{Addr, NetIp, addr_beq}
use domaintest.Spf.Terms.{SpfTerm}

-- `netip.Prefix`, and `netip.ParsePrefix`.
pub record Prefix : Type 0 where
  pub addr : Addr
  pub bits : ℕ

abbrev pub Netmask : Type 0
Netmask = Bytes → Option Prefix

-- `Prefix.Masked`
unfoldable pub masked : Prefix → Prefix
masked p = elim p.addr [
  | Addr.v4 n ↦ record p { addr = Addr.v4 (n / 2 ^ (32 - p.bits) * 2 ^ (32 - p.bits)) }
  | Addr.v6 n z ↦ record p { addr = Addr.v6 (n / 2 ^ (128 - p.bits) * 2 ^ (128 - p.bits)) z }
]

-- `Prefix.Contains`: the same family, no zone, and the same leading bits.
unfoldable pub prefix_contains : Prefix → Addr → Bool
prefix_contains p (Addr.v4 n) = elim p.addr [
  | Addr.v4 m ↦ m / 2 ^ (32 - p.bits) == n / 2 ^ (32 - p.bits)
  | Addr.v6 m y ↦ false
]
prefix_contains p (Addr.v6 n z) = elim p.addr [
  | Addr.v4 m ↦ false
  | Addr.v6 m y ↦ is_nil z && m / 2 ^ (128 - p.bits) == n / 2 ^ (128 - p.bits)
]

unfoldable pub prefix_beq : Prefix → Prefix → Bool
prefix_beq p q = addr_beq p.addr q.addr && p.bits == q.bits

-- `spfPrefix`
pub record SpfPrefix : Type 0 where
  pub text : Bytes
  pub qualifier : Bytes
  pub prefix : Prefix

-- The whole address as a prefix: `netip.PrefixFrom(a, a.BitLen())`, which drops a zone.
unfoldable pub host_prefix : Addr → Prefix
host_prefix (Addr.v4 n) = record { addr = Addr.v4 n; bits = 32 }
host_prefix (Addr.v6 n z) = record { addr = Addr.v6 n []; bits = 128 }

module _ (net : NetIp) (mask : Netmask) where
  or_host : Option Prefix → Option Addr → Option Prefix
  or_host (some p) a = some p
  or_host none (some a) = some (host_prefix a)
  or_host none none = none

  spf_prefix : SpfTerm → Bytes → Option Prefix → List SpfPrefix
  spf_prefix t arg none = []
  spf_prefix t arg (some p) =
      record {
        text = t.name ++ (lit ":" ++ arg);
        qualifier = first_non_empty (t.qualifier ∷ lit "+" ∷ []);
        prefix = masked p;
      }
      ∷ []

  -- `spfPrefixes`
  unfoldable pub spf_prefixes : List SpfTerm → List SpfPrefix
  unfolding or_host spf_prefix
  spf_prefixes [] = []
  spf_prefixes (t ∷ rest) =
      let arg = trim_prefix (lit ":") t.arg in
      let later = spf_prefixes rest in
      if t.modifier || (not (t.name =? lit "ip4") && not (t.name =? lit "ip6"))
      then later
      else spf_prefix t arg (or_host (mask arg) (net.parse_addr arg)) ++ later

-- The prefix q, which stands before p or after it, makes p redundant: a duplicate is named at its
-- later copy only.
unfoldable pub covers : Bool → SpfPrefix → SpfPrefix → Bool
covers q_is_later q p =
    if not (p.qualifier =? q.qualifier)
      || ltb p.prefix.bits q.prefix.bits
      || not (prefix_contains q.prefix p.prefix.addr)
    then false
    else not (prefix_beq q.prefix p.prefix && q_is_later)

abbrev pub covered_text : Bytes → SpfPrefix → SpfPrefix → Bytes
covered_text domain p q =
    p.text ++ (lit " is already covered by " ++ (q.text ++ (lit " in " ++ domain)))

abbrev or_later : Option SpfPrefix → Option SpfPrefix → Option SpfPrefix
or_later none later = later
or_later (some q) later = some q

-- The first prefix that covers p: those before it come first.
unfoldable pub covering : List SpfPrefix → SpfPrefix → List SpfPrefix → Option SpfPrefix
covering before p after =
    or_later (first (λ q. covers false q p) before) (first (λ q. covers true q p) after)

abbrev pub note_covered : Bytes → SpfPrefix → Option SpfPrefix → List Bytes → List Bytes
note_covered domain p none later = later
note_covered domain p (some q) later = covered_text domain p q ∷ later

-- The loops of `redundantIPs`, with the prefixes before the one that is looked at.
unfoldable pub redundant_from : Bytes → List SpfPrefix → List SpfPrefix → List Bytes
unfolding covering
redundant_from domain before [] = []
redundant_from domain before (p ∷ after) =
    note_covered domain p (covering before p after) (redundant_from domain (before ++ p ∷ []) after)

unfoldable pub redundant_ips : NetIp → Netmask → List SpfTerm → Bytes → List Bytes
unfolding spf_prefixes redundant_from
redundant_ips net mask terms domain = redundant_from domain [] (spf_prefixes net mask terms)
