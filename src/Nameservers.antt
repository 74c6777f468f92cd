-- ===== src/Nameservers.antt =====
-- nsaudit.go: the nameservers of a zone, their addresses and the prefixes these are in.
use domaintest.Prelude.{
  ltb, ◌==◌, if◌then◌else◌, length, is_nil, ℕ, ◌/◌, ◌^◌, Bool, false, not, ◌&&◌, ◌||◌, Option, none,
  some, List, [], ◌∷◌, ◌++◌,
}
use domaintest.Text.Numbers.{itoa}
use domaintest.Text.Sort.{sort_strings, text_le}
use domaintest.Names.{Dpdomain, fqdn_of, bare_name}
use domaintest.Text.{Bytes, ◌=?◌, lit, contains}
pub mod Resolve
use domaintest.Glue.{GlueReport}
use domaintest.NsAudit.{NsServer}
use domaintest.Addr.{Addr, NetIp}
use domaintest.Records.{addrs, answered, Lookup}

-- `NSReport`. The field `addrs`, a map, is a list of pairs in the order of its keys.
pub record NsReport : Type 0 where
  pub count : ℕ
  pub servers : List NsServer
  pub serials_consistent : Option Bool
  pub ipv4_prefixes_24 : Option ℕ
  pub ipv6_prefixes_48 : Option ℕ
  pub glue : Option GlueReport
  pub ns_domains : List Bytes
  pub ns_cname : List Bytes
  pub unresolvable : List Bytes
  pub unresolved : List Bytes
  pub addrs : List (Bytes × List Addr)

abbrev absolute_or : Bytes → Bytes → Bytes
absolute_or fqdn r = if is_nil fqdn then r else fqdn

-- Numbers without repetition, for the keys of a map.
unfoldable pub mem_nat : ℕ → List ℕ → Bool
mem_nat n [] = false
mem_nat n (m ∷ ms) = m == n || mem_nat n ms

unfoldable pub insert_new : ℕ → List ℕ → List ℕ
insert_new n ms = if mem_nat n ms then ms else n ∷ ms

-- `prefixDiversity`: the prefixes seen, by their leading bits, and how many there are.
see_prefix : Addr → List ℕ × List ℕ → List ℕ × List ℕ
unfolding insert_new
see_prefix (Addr.v4 n) (seen4, seen6) = (insert_new (n / 2 ^ 8) seen4, seen6)
see_prefix (Addr.v6 n z) (seen4, seen6) = (seen4, insert_new (n / 2 ^ 80) seen6)

unfoldable pub prefixes : List Addr → List ℕ × List ℕ
unfolding see_prefix
prefixes [] = ([], [])
prefixes (ip ∷ rest) = see_prefix ip (prefixes rest)

unfoldable pub prefix_diversity : List Addr → ℕ × ℕ
prefix_diversity ips = (length (prefixes ips).0, length (prefixes ips).1)

-- `rep.addrs[n] = addrs`, in the order of the keys.
unfoldable pub put_addrs : Bytes → List Addr → List (Bytes × List Addr) → List (Bytes × List Addr)
put_addrs n ips [] = (n, ips) ∷ []
put_addrs n ips ((m, old) ∷ rest) =
    let later = put_addrs n ips rest in
    if n =? m
    then (n, ips) ∷ rest
    else if text_le n m
    then (n, ips) ∷ ((m, old) ∷ rest)
    else (m, old) ∷ later

-- `allAddrs`
unfoldable pub all_addrs : List (Bytes × List Addr) → List Addr
all_addrs [] = []
all_addrs ((n, ips) ∷ rest) = ips ++ all_addrs rest

-- `setDiversity`
unfoldable pub set_diversity : NsReport → NsReport
set_diversity r =
    let ips = all_addrs r.addrs in
    if is_nil ips then record r { ipv4_prefixes_24 = none; ipv6_prefixes_48 = none } else record r {
      ipv4_prefixes_24 = some (prefix_diversity ips).0;
      ipv6_prefixes_48 = some (prefix_diversity ips).1;
    }

-- `glueArgs`
unfoldable pub glue_args : Bytes → Bytes → ℕ → Bytes → List Bytes
glue_args parent_server family timeout domain =
    lit "+yaml"
    ∷ lit "+norecurse"
    ∷ lit "+tries=1"
    ∷ (lit "+time=" ++ itoa (if ltb 1 timeout then timeout else 1))
    ∷ (if family =? lit "ipv6" then lit "-6" else lit "-4")
    ∷ (lit "@" ++ parent_server)
    ∷ domain
    ∷ lit "NS"
    ∷ []

module _ (net : NetIp) (dp : Dpdomain) where
  -- `nsNames`
  unfoldable pub absolute_names : List Bytes → List Bytes
  absolute_names [] = []
  absolute_names (r ∷ rest) = absolute_or (fqdn_of dp r) r ∷ absolute_names rest

  unfoldable pub ns_names : Lookup → List Bytes
  ns_names ns = sort_strings (absolute_names ns.records)

  module _ (registrable : Bytes → Option Bytes) where
    -- `nsDomains`, with the second result of `psl.Registrable` as an option.
    domain_key : Bytes → Option Bytes → Bytes
    domain_key bare none = bare
    domain_key bare (some reg) = reg

    domains_from : List Bytes → List Bytes → List Bytes
    unfolding domain_key
    domains_from out [] = out
    domains_from out (n ∷ rest) =
        let key = domain_key (bare_name dp n) (registrable (bare_name dp n)) in
        domains_from (if not (is_nil key) && not (contains key out) then out ++ key ∷ [] else out)
          rest

    unfoldable pub ns_domains_of : List Bytes → List Bytes
    unfolding domains_from
    ns_domains_of names = sort_strings (domains_from [] names)

    -- The second loop of `resolveNS`, for one name and its two answers.
    unfoldable pub resolve_name : Bytes → Lookup → Lookup → NsReport → NsReport
    resolve_name n a aaaa rep =
        let rep' =
          if not (is_nil a.cname) || not (is_nil aaaa.cname)
          then record rep { ns_cname = rep.ns_cname ++ n ∷ [] }
          else rep in
        let ips = addrs net a ++ addrs net aaaa in
        if not (answered a) || not (answered aaaa)
        then record rep' { unresolved = rep'.unresolved ++ n ∷ [] }
        else if is_nil ips
        then record rep' { unresolvable = rep'.unresolvable ++ n ∷ [] }
        else record rep' { addrs = put_addrs n ips rep'.addrs }

    unfoldable pub resolve_each : (Bytes → Bytes → Lookup) → List Bytes → NsReport → NsReport
    resolve_each lookup [] rep = rep
    resolve_each lookup (n ∷ rest) rep =
        resolve_each lookup rest (resolve_name n (lookup n (lit "A")) (lookup n (lit "AAAA")) rep)

    -- `resolveNS`
    unfoldable pub resolve_ns : List Bytes → (Bytes → Bytes → Lookup) → NsReport
    resolve_ns names lookup = set_diversity (
        resolve_each lookup names (record {
          count = length names;
          servers = [];
          serials_consistent = none;
          ipv4_prefixes_24 = none;
          ipv6_prefixes_48 = none;
          glue = none;
          ns_domains = ns_domains_of names;
          ns_cname = [];
          unresolvable = [];
          unresolved = [];
          addrs = [];
        }))
