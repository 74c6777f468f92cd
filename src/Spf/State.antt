-- ===== src/Spf/State.antt =====
-- mail.go: the evaluator of SPF, and the steps that only change its counts and lists.
use domaintest.Prelude.{
  ltb, leb, if◌then◌else◌, is_nil, take, ℕ, ◌+◌, Bool, not, ◌&&◌, ◌||◌, List, [], ◌∷◌, ◌++◌,
}
use domaintest.Text.Numbers.{itoa}
use domaintest.Text.{Bytes, lit, ◌=?◌, contains}
use domaintest.Records.{Lookup, udp_answer_octets}
use domaintest.Spf.Terms.{SpfTerm}

-- `spfEvaluator`
pub record Evaluator : Type 0 where
  pub lookups : ℕ
  pub void : ℕ
  pub includes : List Bytes
  pub problems : List Bytes

abbrev pub new_evaluator : Evaluator
new_evaluator = record { lookups = 0; void = 0; includes = []; problems = [] }

-- `problem` and `noteInclude`
unfoldable pub problem : Bytes → Evaluator → Evaluator
problem p e = if contains p e.problems then e else record e { problems = e.problems ++ p ∷ [] }

unfoldable pub note_include : Bytes → Evaluator → Evaluator
note_include target e =
    if contains target e.includes then e else record e { includes = e.includes ++ target ∷ [] }

abbrev pub count_lookup : Evaluator → Evaluator
count_lookup e = record e { lookups = e.lookups + 1 }

abbrev pub count_void : Evaluator → Evaluator
count_void e = record e { void = e.void + 1 }

abbrev pub problems_all : List Bytes → Evaluator → Evaluator
problems_all [] e = e
problems_all (p ∷ ps) e = problems_all ps (problem p e)

-- `noteAll`
via_suffix : Bytes → Bytes
via_suffix via = if is_nil via then [] else lit ", reached through " ++ via

unfoldable pub note_all : Bytes → Bytes → Evaluator → Evaluator
unfolding via_suffix
note_all qualifier via e =
    if qualifier =? lit "+"
    then problem (lit "+all authorises every sender (no protection)" ++ via_suffix via) e
    else if qualifier =? lit "?"
    then problem (lit "?all is neutral (no protection)" ++ via_suffix via) e
    else e

-- `ednsNote`, `apexSize` and `includeSize`
edns_note : ℕ → Bytes
edns_note octets =
    if leb octets 1232
    then []
    else lit
        "; it also exceeds the 1232-octet EDNS buffer resolvers commonly use, so nearly every lookup needs TCP"

unfoldable pub apex_size : ℕ → Evaluator → Evaluator
unfolding edns_note
apex_size octets e =
    if ltb 512 octets
    then problem
        (lit "apex TXT answer is "
          ++ (itoa octets
              ++ (lit
                    " octets, over the 512-octet UDP limit (RFC 7208 §3.4): resolvers without EDNS get a truncated reply and must retry over TCP"
                  ++ edns_note octets)))
        e
    else if ltb 450 octets
    then problem
        (lit "apex TXT answer is "
          ++ (itoa octets
              ++ lit
                  " octets, close to the 512-octet UDP limit (RFC 7208 §3.4): one more TXT record may push it over"))
        e
    else e

unfoldable pub include_size : Bytes → Lookup → Evaluator → Evaluator
unfolding edns_note
include_size target l e =
    let octets = udp_answer_octets l in
    if ltb 512 octets
    then problem
        (lit "include:"
          ++ (target
              ++ (lit " TXT answer is "
                  ++ (itoa octets
                      ++ (lit " octets, over the 512-octet UDP limit (RFC 7208 §3.4)"
                          ++ edns_note octets)))))
        e
    else e

-- `term`
unfoldable pub term : SpfTerm → Bytes → Evaluator → Evaluator
term t domain e =
    if t.name =? lit "a" || t.name =? lit "mx" || t.name =? lit "exists"
    then count_lookup e
    else if t.name =? lit "ptr"
    then problem (lit "ptr mechanism is deprecated (RFC 7208 §5.5)") (count_lookup e)
    else if t.name =? lit "ip4" || t.name =? lit "ip6" || t.modifier
    then e
    else problem (lit "unknown mechanism " ++ (t.name ++ (lit " in " ++ domain))) e

abbrev pub is_redirect : SpfTerm → Bool
is_redirect t = t.name =? lit "redirect" && t.modifier

-- `SPFResult`
pub record SpfResult : Type 0 where
  pub count : ℕ
  pub lookups : ℕ
  pub void_lookups : ℕ
  pub answer_octets : ℕ
  pub final_all : Bytes
  pub includes : List Bytes
  pub problems : List Bytes

-- The limits that `evaluateSPF` checks at the end.
unfoldable pub lookup_limit_text : ℕ → Bytes
lookup_limit_text n =
    itoa n ++ lit " DNS lookups exceed the limit of 10 (permerror: SPF fails entirely)"

unfoldable pub void_limit_text : ℕ → Bytes
void_limit_text n = itoa n ++ lit " void lookups exceed the limit of 2"

unfoldable pub multiple_text : Bytes
multiple_text = lit "multiple SPF records (permerror: SPF fails entirely)"

abbrev pub problem_if : Bool → Bytes → Evaluator → Evaluator
problem_if test p e = if test then problem p e else e

unfoldable pub check_limits : Evaluator → Evaluator
check_limits e =
    let e' = problem_if (ltb 10 e.lookups) (lookup_limit_text e.lookups) e in
    problem_if (ltb 2 e.void) (void_limit_text e.void) e'

-- What `evaluateSPF` returns.
abbrev pub report : ℕ → ℕ → Bytes → Evaluator → SpfResult
report count octets final_all e = record {
  count = count;
  lookups = e.lookups;
  void_lookups = e.void;
  answer_octets = octets;
  final_all = final_all;
  includes = e.includes;
  problems = e.problems;
}

-- The evaluator before the walk of the first record.
abbrev pub opened : ℕ → ℕ → Evaluator
opened count octets = apex_size octets (problem_if (ltb 1 count) multiple_text new_evaluator)

-- The evaluator behind the walk: what the last `all` says, and the limits.
abbrev pub closed : Bytes × Bytes → Evaluator → Evaluator
closed (a, via) e = check_limits (if not (is_nil a) then note_all (take 1 a) via e else e)
