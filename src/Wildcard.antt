-- ===== src/Wildcard.antt =====
-- wildcard.go: whether a zone answers for names that do not exist. The random labels come from
-- crypto/rand, so a probe carries its label; `sameAddressSet` and `nonNil` are those of report.go.
pub mod Verdict
pub mod Addresses
use domaintest.Prelude.{
  ◌==◌, if◌then◌else◌, length, is_nil, any, all, first, Bool, true, false, not, ◌&&◌, ◌||◌, Option,
  none, some, List, [], ◌∷◌, ◌++◌, map,
}
use domaintest.Addr.{Addr, NetIp, unmap, mem_addr}
use domaintest.Names.{Dpdomain, fqdn_of}
use domaintest.Records.{Lookup, LookupMap, get, addrs, answered as was_answered, is_nxdomain}
use domaintest.Text.Numbers.{itoa}
use domaintest.Text.Sort.{sort_strings}
use domaintest.Text.{Bytes, lit, ◌=?◌}

-- The verdicts `WildcardPresent`, `WildcardAbsent`, `WildcardUnknown`.
pub data WildcardStatus : Type 0 where
  present absent unknown : WildcardStatus

-- `probeAnswered`, `probeDenied`, `probeUnresolved`
pub data Outcome : Type 0 where
  answered denied unresolved : Outcome

abbrev pub is_denied : Outcome → Bool
is_denied Outcome.denied = true
is_denied _ = false

abbrev pub is_unresolved : Outcome → Bool
is_unresolved Outcome.unresolved = true
is_unresolved _ = false

abbrev pub is_answered : Outcome → Bool
is_answered Outcome.answered = true
is_answered _ = false

-- `WildcardProbe`
pub record WildcardProbe : Type 0 where
  pub label : Bytes
  pub status : Outcome
  pub addresses : List Bytes
  pub cname : Bytes

-- `WildcardReport`; `consistent` is null unless the status is present.
pub record WildcardReport : Type 0 where
  pub status : WildcardStatus
  pub determined_by : Bytes
  pub probes : List WildcardProbe
  pub addresses : List Bytes
  pub consistent : Option Bool
  pub www_via_wildcard : Bool

-- `wildProbe`
pub record WildProbe : Type 0 where
  pub label : Bytes
  pub a : Lookup
  pub aaaa : Lookup

-- `wildcardSkipReason`
unfoldable pub wildcard_skip_reason : LookupMap → LookupMap → Bytes
wildcard_skip_reason apex www =
    if is_nxdomain (get apex (lit "A")).status && is_nxdomain (get apex (lit "NS")).status
    then lit "the domain does not exist"
    else if is_nxdomain (get www (lit "A")).status
    then lit "www is NXDOMAIN, so no wildcard could have answered for it"
    else []

-- `sameAddressSet` of report.go
unfoldable pub same_address_set : List Addr → List Addr → Bool
same_address_set a b =
    if not (length a == length b) then false else all (λ ip. mem_addr (unmap ip) (map unmap a)) b

module _ (net : NetIp) where
  -- `probeAddrs`
  unfoldable pub probe_addrs : WildProbe → List Addr
  probe_addrs p = addrs net p.a ++ addrs net p.aaaa

  -- `classifyProbe`
  unfoldable pub classify_probe : WildProbe → Outcome
  classify_probe p =
      if not (is_nil (addrs net p.a))
        || not (is_nil (addrs net p.aaaa))
        || not (is_nil p.a.cname)
        || not (is_nil p.aaaa.cname)
      then Outcome.answered
      else if is_nxdomain p.a.status || is_nxdomain p.aaaa.status
      then Outcome.denied
      else if was_answered p.a && was_answered p.aaaa
      then Outcome.denied
      else Outcome.unresolved

  -- `wwwIsWildcard`
  unfoldable pub www_is_wildcard : List WildProbe → List Addr → Bool
  www_is_wildcard probes www =
      if is_nil www
      then false
      else any (λ p. length (probe_addrs p) == length www && same_address_set www (probe_addrs p))
          probes

  -- `addrStrings`
  unfoldable pub addr_strings : List Addr → List Bytes
  addr_strings ips = sort_strings (map net.addr_string ips)

  -- The inner loop of `unionAddrs`: addresses put out so far are the ones seen.
  unfoldable pub union_onto : List Addr → List Addr → List Addr
  union_onto out [] = out
  union_onto out (ip ∷ rest) =
      union_onto (if mem_addr (unmap ip) out then out else out ++ unmap ip ∷ []) rest

  union_probes : List Addr → List WildProbe → List Addr
  unfolding union_onto
  union_probes out [] = out
  union_probes out (p ∷ rest) = union_probes (union_onto out (probe_addrs p)) rest

  -- `unionAddrs`
  unfoldable pub union_addrs : List WildProbe → List Addr
  unfolding union_probes
  union_addrs = union_probes []

  module _ (dp : Dpdomain) where
    first_fqdn : List Bytes → Bytes
    first_fqdn [] = []
    first_fqdn (c ∷ rest) =
        let f = fqdn_of dp c in let later = first_fqdn rest in if not (is_nil f) then f else later

    -- `probeCNAME`
    unfoldable pub probe_cname : WildProbe → Bytes
    unfolding first_fqdn
    probe_cname p = first_fqdn (p.a.cname ++ p.aaaa.cname)

    -- `describeProbe`
    unfoldable pub describe_probe : WildProbe → Outcome → WildcardProbe
    unfolding addr_strings
    describe_probe p outcome = record {
      label = p.label;
      status = outcome;
      addresses = addr_strings (probe_addrs p);
      cname = probe_cname p;
    }

    -- `probesAgree`: every later probe agrees with the first.
    agrees_with : WildProbe → WildProbe → Bool
    agrees_with p0 p =
        if not (probe_cname p =? probe_cname p0)
        then false
        else not (
            not (length (probe_addrs p) == length (probe_addrs p0))
            || not (same_address_set (probe_addrs p) (probe_addrs p0)))

    unfoldable pub probes_agree : List WildProbe → Bool
    unfolding agrees_with
    probes_agree [] = true
    probes_agree (p0 ∷ rest) = all (agrees_with p0) rest

    -- The first probe with an outcome that passes the test.
    unfoldable pub first_probe : (Outcome → Bool) → List WildProbe → Option WildProbe
    first_probe test = first (λ p. test (classify_probe p))

    -- `setWildcardVerdict`: the report, and whether the zone answers every name.
    unfoldable pub set_wildcard_verdict : WildcardReport → List WildProbe → WildcardReport × Bool
    unfolding first_probe addr_strings
    set_wildcard_verdict rep probes = elim (first_probe is_denied probes) [
      | some p ↦ (
        record rep {
          status = WildcardStatus.absent;
          determined_by = lit "the random name " ++ (p.label ++ lit " is denied");
        },
        false,
      )
      | none ↦ elim (first_probe is_unresolved probes) [
        | some p ↦ (
          record rep {
            status = WildcardStatus.unknown;
            determined_by =
                lit "the lookup for the random name " ++ (p.label ++ lit " did not complete");
          },
          false,
        )
        | none ↦ (
          record rep {
            status = WildcardStatus.present;
            determined_by = itoa (length probes) ++ lit " random names all answer";
            addresses = addr_strings (union_addrs probes);
            consistent = some (probes_agree probes);
          },
          true,
        )
      ]
    ]

    abbrev empty_report : WildcardReport
    empty_report = record {
      status = WildcardStatus.unknown;
      determined_by = [];
      probes = [];
      addresses = [];
      consistent = none;
      www_via_wildcard = false;
    }

    -- The report with the probes described, before the verdict.
    unfoldable pub probed_report : List WildProbe → WildcardReport
    unfolding describe_probe
    probed_report probes = record empty_report {
      probes = map (λ p. describe_probe p (classify_probe p)) probes;
    }

    -- `assessWildcard`
    unfoldable pub assess_wildcard : List WildProbe → Bytes → Lookup → Lookup → WildcardReport
    unfolding set_wildcard_verdict probed_report
    assess_wildcard probes skip www_a www_aaaa =
        if not (is_nil skip)
        then record empty_report { status = WildcardStatus.absent; determined_by = skip }
        else if is_nil probes
        then record empty_report {
          status = WildcardStatus.unknown;
          determined_by = lit "no probe was issued";
        }
        else let (rep, everywhere) = set_wildcard_verdict (probed_report probes) probes in
          (if everywhere
            then record rep {
              www_via_wildcard = www_is_wildcard probes (addrs net www_a ++ addrs net www_aaaa);
            }
            else rep)
