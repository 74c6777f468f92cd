-- ===== src/Dnssec.antt =====
-- dnssec.go: the DNSSEC state of a zone, from the lookups already made.
pub mod Verdict
pub mod ByTrust
use domaintest.Prelude.{
  ltb, if◌then◌else◌, first, ℕ, ◌+◌, Bool, false, not, ◌&&◌, ◌||◌, Option, none, some, List, [],
  ◌∷◌, ◌++◌, map,
}
use domaintest.Records.{
  Lookup, LookupMap, Trust, get, answered, has_records, is_failure, is_nxdomain, is_nxrrset,
  is_secure, is_insecure,
}
use domaintest.Text.{Bytes, lit}

-- `DNSSECState`
pub data DnssecState : Type 0 where
  secure insecure island bogus servfail unknown nonexistent : DnssecState

-- `DNSSECReport`
pub record DnssecReport : Type 0 where
  pub state : DnssecState
  pub ds : Bool
  pub dnskey : Bool
  pub ede : Bytes
  pub detail : Bytes

-- `bogusProbe`: whether the data exists with checking disabled, and the Extended DNS Error.
-- `none` is the nil callback.
abbrev pub BogusProbe : Type 0
BogusProbe = Option (Bytes → Bytes → Bool × Bytes)

-- `apexTypes` of report.go
abbrev pub apex_types : List Bytes
apex_types = lit "A" ∷ lit "AAAA" ∷ lit "MX" ∷ lit "TXT" ∷ lit "NS" ∷ []

-- `firstFailed`: the apex lookups in report order, then DS and DNSKEY. The zero lookup of a type
-- that is not in the map has not failed.
unfoldable pub first_failed : Lookup → Lookup → LookupMap → Option Lookup
first_failed ds dnskey apex =
    first (λ l. is_failure l.status) (map (get apex) apex_types ++ (ds ∷ dnskey ∷ []))

-- `unsignedDelegation`
unfoldable pub unsigned_delegation : Lookup → Bool
unsigned_delegation ds = is_nxrrset ds.status

-- `nameDoesNotExist`
unfoldable pub name_does_not_exist : LookupMap → Bool
name_does_not_exist apex =
    is_nxdomain (get apex (lit "NS")).status || is_nxdomain (get apex (lit "A")).status

-- `classifyFailure`
unfoldable pub classify_failure : DnssecReport → Lookup → BogusProbe → Bool → DnssecReport
classify_failure rep failed none unsigned = record rep {
  state = DnssecState.servfail;
  detail = failed.error;
}
classify_failure rep failed (some probe) unsigned =
    let (has_data, ede) = probe failed.name failed.qtype in
    if has_data && unsigned
    then record rep {
      state = DnssecState.servfail;
      ede = ede;
      detail =
          lit
            "resolver failed, then answered with checking disabled; the zone is unsigned, so this is not a validation failure";
    }
    else if has_data
    then record rep {
      state = DnssecState.bogus;
      ede = ede;
      detail = lit "resolver fails validation but data exists with checking disabled";
    }
    else record rep {
      state = DnssecState.servfail;
      ede = ede;
      detail = lit "resolver failed and returned no data even with checking disabled";
    }

-- `nonexistentState`
unfoldable pub nonexistent_state : DnssecReport → Lookup → DnssecReport
nonexistent_state rep ds = record rep {
  state = DnssecState.nonexistent;
  detail =
      if is_secure ds.trust
      then lit
          "the name does not exist (NXDOMAIN); the parent's denial of existence was DNSSEC-validated"
      else lit
          "the name does not exist (NXDOMAIN); the parent's denial of existence was not validated";
}

-- `signedState`
unfoldable pub signed_state : DnssecReport → Trust → DnssecReport
signed_state rep Trust.secure = record rep { state = DnssecState.secure }
signed_state rep Trust.insecure = record rep {
  state = DnssecState.insecure;
  detail = lit "DS and DNSKEY are published, but the validator treated the zone as unsigned";
}
signed_state rep _ = record rep {
  state = DnssecState.unknown;
  detail =
      lit
        "DS and DNSKEY are published, but the validator reported no validation status for the DNSKEY answer";
}

-- The switch at the end of `classifyDNSSEC`.
unfoldable pub classify_published : DnssecReport → Trust → DnssecReport
unfolding signed_state
classify_published rep trust =
    if rep.ds && rep.dnskey
    then signed_state rep trust
    else if rep.dnskey
    then record rep {
      state = DnssecState.island;
      detail = lit "zone publishes DNSKEY but parent has no DS";
    }
    else if rep.ds
    then record rep {
      state = DnssecState.bogus;
      detail = lit "parent has DS but zone publishes no DNSKEY";
    }
    else record rep { state = DnssecState.insecure }

abbrev pub published : Lookup → Lookup → DnssecReport
published ds dnskey = record {
  state = DnssecState.unknown;
  ds = has_records ds;
  dnskey = has_records dnskey;
  ede = [];
  detail = [];
}

-- `classifyDNSSEC` when no lookup failed.
unfoldable pub classify_answers : Lookup → Lookup → LookupMap → DnssecReport
unfolding classify_published nonexistent_state
classify_answers ds dnskey apex =
    if not (answered ds) || not (answered dnskey)
    then record (published ds dnskey) {
      state = DnssecState.unknown;
      detail = lit "DS or DNSKEY lookup did not complete";
    }
    else if name_does_not_exist apex
    then nonexistent_state (published ds dnskey) ds
    else classify_published (published ds dnskey) dnskey.trust

-- `classifyDNSSEC` when a lookup failed.
unfoldable pub classify_failed : DnssecReport → Lookup → BogusProbe → Bool → DnssecReport
unfolding classify_failure
classify_failed rep failed probe unsigned =
    if failed.unqueryable
    then record rep { state = DnssecState.unknown; detail = failed.error }
    else classify_failure rep failed probe unsigned

-- `classifyDNSSEC`
unfoldable pub classify_dnssec : Lookup → Lookup → LookupMap → BogusProbe → DnssecReport
unfolding classify_answers classify_failed unsigned_delegation
classify_dnssec ds dnskey apex probe = elim (first_failed ds dnskey apex) [
  | some failed ↦ classify_failed (published ds dnskey) failed probe (unsigned_delegation ds)
  | none ↦ classify_answers ds dnskey apex
]

-- One round of the loop of `classifyByTrust`, on the secure and the insecure answers so far.
unfoldable pub tally_trust : Lookup → ℕ × ℕ → ℕ × ℕ
tally_trust l (secure_count, insecure_count) =
    if not (answered l)
    then (secure_count, insecure_count)
    else if is_secure l.trust
    then (secure_count + 1, insecure_count)
    else if is_insecure l.trust
    then (secure_count, insecure_count + 1)
    else (secure_count, insecure_count)

unfoldable pub count_trust : LookupMap → ℕ × ℕ
unfolding tally_trust
count_trust [] = (0, 0)
count_trust ((k, l) ∷ rest) = tally_trust l (count_trust rest)

-- `classifyByTrust`
unfoldable pub classify_by_trust : LookupMap → DnssecReport
unfolding count_trust
classify_by_trust apex =
    let (secure_count, insecure_count) = count_trust apex in
    record {
      state =
          if ltb 0 insecure_count
          then DnssecState.insecure
          else if ltb 0 secure_count
          then DnssecState.secure
          else DnssecState.unknown;
      ds = false;
      dnskey = false;
      ede = [];
      detail = lit "not a zone apex; state taken from answer validation";
    }
