-- ===== src/Findings/Servers.antt =====
-- report.go: the findings on the nameservers.
use domaintest.Prelude.{
  ltb, leb, ◌==◌, if◌then◌else◌, length, is_nil, all, ℕ, ◌+◌, Bool, false, not, ◌&&◌, ◌||◌, Option,
  none, some, List, [], ◌∷◌, ◌++◌, map,
}
use domaintest.Findings.Count.{NsTally, is_authoritative, tally_servers}
use domaintest.Web.{is_known_false}
use domaintest.Text.Numbers.{itoa, itoa_int}
use domaintest.Addr.{NetIp, Addr, is4}
use domaintest.Text.{Bytes, lit, concat, join}
use domaintest.Codes.{Code}
use domaintest.Findings.{Finding, fail, warn, info}
use domaintest.Findings.Mail.{each}
use domaintest.NsAudit.{NsServer}
use domaintest.Nameservers.{NsReport}
use domaintest.Glue.{GlueReport}

-- `serverWarnings`
unfoldable pub server_warning : NsServer → List Finding
server_warning s =
    (if not s.tcp
      then warn Code.ns_no_tcp s.name
          (lit "nameserver " ∷ s.name ∷ lit " (" ∷ s.ip ∷ lit "): no answer over TCP" ∷ [])
      else [])
    ++ (if not s.edns
        then warn Code.ns_no_edns s.name
            (lit "nameserver " ∷ s.name ∷ lit " (" ∷ s.ip ∷ lit "): no EDNS support" ∷ [])
        else [])

unfoldable pub server_warnings : List NsServer → List Finding
unfolding server_warning
server_warnings [] = []
server_warnings (s ∷ rest) =
    (if is_authoritative s then server_warning s else []) ++ server_warnings rest

-- `nameFindings`
abbrev of_addresses : ℕ → ℕ → List Bytes
of_addresses n total = itoa n ∷ lit " of " ∷ itoa total ∷ lit " addresses" ∷ []

abbrev part_of : NsTally → Bytes → ℕ → List Bytes
part_of t what n =
    lit "nameserver " ∷ t.name ∷ lit ": " ∷ what ∷ lit " on " ∷ of_addresses n t.total

unfoldable pub reserved_finding : NsTally → List Finding
reserved_finding t =
    if ltb 0 t.withheld
    then fail Code.ns_reserved_address t.name (
        part_of t (concat (lit "reserved address (" ∷ t.reserved_why ∷ lit ")" ∷ [])) t.withheld
        ++ lit ", not queried" ∷ [])
    else []

unfoldable pub lame_finding : NsTally → List Finding
lame_finding t = if ltb 0 t.lame then fail Code.ns_lame t.name (part_of t t.reason t.lame) else []

unfoldable pub silent_finding : NsTally → List Finding
silent_finding t =
    if ltb 0 t.silent && t.silent == t.total
    then fail Code.ns_no_answer t.name (part_of t (lit "no answer") t.silent)
    else if ltb 0 t.silent
    then warn Code.ns_partial_answer t.name
        (part_of t (lit "no answer") t.silent ++ lit ", the others are authoritative" ∷ [])
    else []

unfoldable pub name_findings : NsTally → List Finding
unfolding reserved_finding lame_finding
name_findings t = reserved_finding t ++ (lame_finding t ++ silent_finding t)

-- `serverFindings`
unfoldable pub all_names : List NsTally → List Finding
all_names [] = []
all_names (t ∷ ts) = name_findings t ++ all_names ts

unfoldable pub server_findings : List NsServer → List Finding
unfolding all_names
server_findings servers = server_warnings servers ++ all_names (tally_servers servers)

-- `noServerAnswers`
unfoldable pub no_server_answers : Option NsReport → Bool
no_server_answers none = false
no_server_answers (some n) =
    if ltb 0 (length n.unresolved) || length n.servers + length n.unresolvable == 0
    then false
    else all (λ s. not (is_nil s.error || s.aa)) n.servers

-- `describeSilentServers`
describe_tally : NsTally → Bytes
describe_tally t = concat (
    t.name
    ∷ lit " "
    ∷ join
        ((if ltb 0 t.lame
            then concat (t.reason ∷ lit " on " ∷ of_addresses t.lame t.total) ∷ []
            else [])
          ++ ((if ltb 0 t.silent
                then concat (lit "no answer on " ∷ of_addresses t.silent t.total) ∷ []
                else [])
              ++ (if ltb 0 t.withheld
                  then concat (
                      lit "reserved address ("
                      ∷ t.reserved_why
                      ∷ lit ") on "
                      ∷ of_addresses t.withheld t.total)
                    ∷ []
                  else [])))
        (lit ", ")
    ∷ [])

-- On a pointer that is not nil; `none` has no servers.
unfoldable pub describe_silent_servers : Option NsReport → Bytes
unfolding describe_tally
describe_silent_servers none = []
describe_silent_servers (some n) =
    join
      (map describe_tally (tally_servers n.servers)
        ++ map (λ name. name ++ lit " has no address") n.unresolvable)
      (lit "; ")

-- `serialList`
serials : List NsServer → List Bytes
serials [] = []
serials (s ∷ rest) =
    if s.aa
    then concat (s.name ∷ lit "(" ∷ s.ip ∷ lit ")=" ∷ itoa_int s.serial ∷ []) ∷ serials rest
    else serials rest

unfoldable pub serial_list : List NsServer → Bytes
unfolding serials
serial_list servers = join (serials servers) (lit ", ")

module _ (net : NetIp) where
  -- `serverFamilies`
  count_family : Option Addr → ℕ × ℕ → ℕ × ℕ
  count_family none (v4, v6) = (v4, v6)
  count_family (some ip) (v4, v6) = if is4 ip then (v4 + 1, v6) else (v4, v6 + 1)

  unfoldable pub server_families : List NsServer → ℕ × ℕ
  unfolding count_family
  server_families [] = (0, 0)
  server_families (s ∷ rest) = count_family (net.parse_addr s.ip) (server_families rest)

  -- `diversityFindings`
  unfoldable pub shared_prefixes : Option ℕ → Option ℕ → ℕ × ℕ → List Finding
  shared_prefixes (some p4) (some p6) (v4, v6) =
      (if leb 2 v4 && p4 == 1
        then warn Code.ns_same_v4_24 [] (lit "all IPv4 nameserver addresses share one /24" ∷ [])
        else [])
      ++ (if leb 2 v6 && p6 == 1
          then info Code.ns_same_v6_48 [] (lit "all IPv6 nameserver addresses share one /48" ∷ [])
          else [])
  shared_prefixes _ _ counts = []

  unfoldable pub one_domain : ℕ → List Bytes → List Finding
  one_domain count (d ∷ []) =
      if leb 2 count
      then info Code.ns_single_domain [] (lit "every nameserver is named under " ∷ d ∷ [])
      else []
  one_domain count _ = []

  unfoldable pub diversity_findings : NsReport → List Finding
  unfolding one_domain shared_prefixes
  diversity_findings n =
      one_domain n.count n.ns_domains
      ++ shared_prefixes n.ipv4_prefixes_24 n.ipv6_prefixes_48 (server_families n.servers)

  -- `glueFindings`
  unfoldable pub glue_findings : Option GlueReport → List Finding
  glue_findings none = []
  glue_findings (some g) =
      each
        (λ name.
          fail Code.glue_missing name
            (lit "no glue at the parent for in-bailiwick nameserver " ∷ name ∷ []))
        g.missing
      ++ each
          (λ m.
            warn Code.glue_differs []
              (lit "glue at the parent differs from the zone for " ∷ m ∷ []))
          g.mismatch

  -- `nsFindings`
  unfoldable pub ns_findings : Option NsReport → List Finding
  ns_findings none = []
  ns_findings (some n) =
      (if ltb n.count 2
        then fail Code.ns_count_low []
            (lit "only " ∷ itoa n.count ∷ lit " nameserver (at least two required)" ∷ [])
        else [])
      ++ (each
            (λ name.
              fail Code.ns_cname name
                (lit "nameserver " ∷ name ∷ lit " is a CNAME (RFC 2181 §10.3)" ∷ []))
            n.ns_cname
          ++ (each
                (λ name.
                  fail Code.ns_no_address name
                    (lit "nameserver " ∷ name ∷ lit " has no address" ∷ []))
                n.unresolvable
              ++ (each
                    (λ name. warn Code.ns_unaudited name (
                      lit "nameserver "
                      ∷ name
                      ∷ lit ": the address lookup did not complete, so it was not audited"
                      ∷ []))
                    n.unresolved
                  ++ ((if is_nil n.servers
                        then warn Code.ns_none_reached [] (
                            lit "no nameserver was reached, so none of the per-server checks ran"
                            ∷ [])
                        else [])
                      ++ (server_findings n.servers
                          ++ ((if is_known_false n.serials_consistent
                                then info Code.soa_serial_differs [] (
                                    lit "SOA serial differs between nameservers: "
                                    ∷ serial_list n.servers
                                    ∷ [])
                                else [])
                              ++ (diversity_findings n ++ glue_findings n.glue)))))))
