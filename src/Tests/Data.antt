-- ===== src/Tests/Data.antt =====
-- Concrete stand-ins for what the program takes from elsewhere: an address is its decimal number, a
-- name is itself with a dot behind it, and a hash marks its input.
use domaintest.Prelude.{
  ltb, if◌then◌else◌, is_nil, ℤ, Bool, true, false, Option, none, some, List, [], ◌∷◌, ◌++◌, pos,
}
use domaintest.Text.Sort.{sort_strings}
use domaintest.Text.Numbers.{atoi, itoa}
use domaintest.Records.{LookupStatus, Trust, Rr, Lookup, no_lookup}
use domaintest.Trace.Ask.{RunResult}
use domaintest.Tlsa.{Hashes}
use domaintest.Names.{Dpdomain, Normalized}
use domaintest.Text.{
  Bytes, to_lower, lit, trim_suffix, ◌=?◌, has_prefix, has_suffix, has_infix, trim_prefix, fields,
  trim_space, split, join, contains,
}
use domaintest.Addr.{Addr, NetIp}

abbrev parsed_addr : ℤ × Bool → Option Addr
parsed_addr (pos n, true) = some (Addr.v4 n)
parsed_addr _ = none

abbrev pub numbers : NetIp
numbers = record {
  parse_addr = λ s. parsed_addr (atoi s);
  addr_string = λ ip. elim ip [ Addr.v4 n ↦ itoa n | Addr.v6 n z ↦ lit "::" ++ itoa n ];
  reserved =
      λ ip. elim ip [ Addr.v4 n ↦ if ltb n 10 then lit "private" else [] | Addr.v6 n z ↦ [] ];
}

abbrev plain_name : Bytes → Normalized
plain_name s =
    let bare = to_lower (trim_suffix (lit ".") s) in
    if is_nil bare
    then Normalized.invalid (lit "empty")
    else Normalized.name (record { ascii = bare; fqdn = bare ++ lit "."; is_ip = false })

abbrev pub plain : Dpdomain
plain = record { lenient = plain_name; lenient_or_ip = plain_name }

abbrev pub marked : Hashes
marked = record { sha256 = λ s. 2 ∷ s; sha512 = λ s. 5 ∷ s }

abbrev pub printed : Bytes → RunResult
printed out = record { stdout = out; stderr = []; timed_out = false; failure = none }

abbrev pub timed_out_run : RunResult
timed_out_run = record { stdout = []; stderr = []; timed_out = true; failure = none }

-- A lookup with a status and records.
abbrev pub found : LookupStatus → Trust → List Bytes → Lookup
found status trust records = record no_lookup { status = status; trust = trust; records = records }

abbrev pub rr_of : Bytes → Bytes → Bytes → Rr
rr_of owner rtype rdata = record {
  owner = owner;
  ttl = pos 60;
  rtype = rtype;
  rdata = rdata;
  rdlen = 0;
}

-- The functions on texts, for the runs to unfold.
unfoldable pub texts : Unit {0}
unfolding lit ◌=?◌ has_prefix has_suffix has_infix trim_prefix trim_suffix fields trim_space split
    join atoi itoa to_lower contains sort_strings
texts = tt
