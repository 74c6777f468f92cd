-- ===== src/Tests/Mail.antt =====
-- SPF records over a table of TXT lookups.
use domaintest.Prelude.{if◌then◌else◌, All, ℕ, ◌≡◌, refl, none, List, [], ◌∷◌, arith}
use domaintest.Addr.{Addr, addr_beq}
use domaintest.Spf.Covered.{IsRedundant, redundant_ips_lem}
use domaintest.Names.{bare_name}
use domaintest.Spf.Enough.{descend_lem}
use domaintest.Spf.Terms.{
  spf_records, parse_spf_terms, record_all, spf_target, contains_percent, SpfTerm,
}
use domaintest.Spf.Ending.{IsWalked, walk_lem}
use domaintest.Text.{Bytes, lit, ◌=?◌, cut, first_non_empty}
use domaintest.Spf.Prefixes.{
  Netmask, redundant_ips, spf_prefixes, covers, masked, host_prefix, prefix_contains, prefix_beq,
}
use domaintest.Spf.{evaluate_spf, Descend, descend, descend_step, mechanism, redirect, walk_terms}
use domaintest.Spf.State.{
  SpfResult, new_evaluator, problem, note_include, apex_size, include_size, term, check_limits,
  note_all, lookup_limit_text, void_limit_text, multiple_text,
}
use domaintest.Tests.Data.{numbers, plain, found, texts}
use domaintest.Records.{Lookup, LookupStatus, Trust, udp_answer_octets, answered, has_records}

spf : Unit {0}
unfolding evaluate_spf redundant_ips udp_answer_octets spf_records parse_spf_terms problem
    note_include apex_size include_size term mechanism redirect walk_terms check_limits record_all
    spf_target contains_percent cut bare_name answered has_records note_all covers first_non_empty
    masked host_prefix prefix_contains prefix_beq addr_beq lookup_limit_text void_limit_text
    multiple_text descend
spf = tt

abbrev no_prefix : Netmask
no_prefix s = none

-- a.org includes itself, and b.org ends with +all.
abbrev zone : Bytes → Bytes → Lookup
zone name qtype =
    if name =? lit "b.org"
    then found LookupStatus.ok Trust.unset (lit "v=spf1 +all" ∷ [])
    else if name =? lit "a.org"
    then found LookupStatus.ok Trust.unset (lit "v=spf1 include:a.org -all" ∷ [])
    else found LookupStatus.nxdomain Trust.unset []

abbrev apex_txt : Bytes → Lookup
apex_txt record_text = found LookupStatus.ok Trust.unset (record_text ∷ [])

abbrev spf_of : Bytes → SpfResult
spf_of record_text = evaluate_spf numbers no_prefix plain zone (lit "x.org") (apex_txt record_text)

spf_tests :
    ((spf_of (lit "v=spf1 mx a -all")).lookups ≡ 2)
    × ((spf_of (lit "v=spf1 mx a -all")).problems ≡ [])
    × ((spf_of (lit "v=spf1 redirect=b.org")).final_all ≡ lit "+all")
    × ((spf_of (lit "v=spf1 include:a.org ~all")).includes ≡ lit "a.org" ∷ [])
    × ((spf_of (lit "v=spf1 include:a.org ~all")).lookups ≡ 2)
    × ((spf_of (lit "v=spf1 include:gone.org -all")).void_lookups ≡ 1)
unfolding texts spf
spf_tests = (refl, refl, refl, refl, refl, refl)

abbrev calls : ℕ → Descend
calls = descend numbers no_prefix plain zone

descend_lem_example :
    (calls 40 (lit "a.org") (lit "x.org" ∷ []) new_evaluator
      ≡ descend_step numbers no_prefix plain zone
          (calls 40)
          (lit "a.org")
          (lit "x.org" ∷ [])
          new_evaluator)
    × (calls 40 (lit "a.org") (lit "x.org" ∷ []) new_evaluator
        ≡ calls 22 (lit "a.org") (lit "x.org" ∷ []) new_evaluator)
descend_lem_example =
    descend_lem numbers no_prefix plain zone 40 (lit "a.org") (lit "x.org" ∷ []) new_evaluator
      (omega arith)

walk_lem_example :
    IsWalked numbers no_prefix plain zone
      (calls 22)
      (lit "v=spf1 redirect=b.org")
      (lit "x.org" ∷ [])
      new_evaluator
walk_lem_example =
    walk_lem numbers no_prefix plain zone (calls 22) (lit "v=spf1 redirect=b.org")
      (lit "x.org" ∷ []) new_evaluator

abbrev repeated : List SpfTerm
repeated = parse_spf_terms (lit "v=spf1 ip4:70 ip4:71 ip4:70 -ip4:71 -all")

redundant_tests :
    redundant_ips numbers no_prefix repeated (lit "x.org")
    ≡ lit "ip4:70 is already covered by ip4:70 in x.org" ∷ []
unfolding texts spf
redundant_tests = refl

redundant_ips_lem_example :
    All
      (IsRedundant (spf_prefixes numbers no_prefix repeated) (lit "x.org") (Addr.v4 70))
      (redundant_ips numbers no_prefix repeated (lit "x.org"))
redundant_ips_lem_example = redundant_ips_lem numbers no_prefix repeated (lit "x.org") (Addr.v4 70)
