-- ===== src/Spf/Known.antt =====
-- The problems of the evaluator against the classes of the report.
use domaintest.Prelude.{
  any, All, ℕ, ◌≡◌, refl, Bool, true, ◌&&◌, Option, none, some, List, [], ◌∷◌, ◌++◌, arith,
}
use domaintest.Spf.Terms.{SpfTerm}
use domaintest.Addr.{NetIp}
use domaintest.Text.Numbers.{itoa}
use domaintest.Spf.State.{multiple_text, lookup_limit_text, void_limit_text}
use domaintest.Findings.Mail.{matches, spf_classes}
use domaintest.Spf.Prefixes.{
  SpfPrefix, covered_text, note_covered, redundant_from, redundant_ips, covering, Netmask,
}
use domaintest.Text.{Bytes, lit, has_prefix, has_infix}

-- Some class of the report matches the problem.
abbrev pub IsKnown : Bytes → Type 0
IsKnown p = any (matches p) spf_classes ≡ true

has_infix-of : (q s : Bytes) → has_prefix q s ≡ true → has_infix q s ≡ true
unfolding has_infix has_prefix
has_infix-of [] [] h = refl
has_infix-of (x ∷ q) [] h = h
has_infix-of q (y ∷ s) h = ground (arith, h)

has_infix-behind : (q x s : Bytes) → has_infix q s ≡ true → has_infix q (x ++ s) ≡ true
unfolding has_infix
has_infix-behind q [] s h = h
has_infix-behind q (c ∷ x) s h = ground (arith, has_infix-behind q x s h)

missing_prefix : has_prefix (lit " has no SPF record") (lit " has no SPF record") ≡ true
unfolding lit has_prefix
missing_prefix = refl

unchecked_prefix :
    has_prefix
      (lit " could not be checked")
      (lit " could not be checked: its TXT lookup did not complete")
    ≡ true
unfolding lit has_prefix
unchecked_prefix = refl

invalid_prefix :
    (s : Bytes)
    → has_prefix (lit " is not a valid domain name") (lit " is not a valid domain name (" ++ s)
      ≡ true
unfolding lit has_prefix
invalid_prefix s = refl

size_prefix : (s : Bytes) → has_prefix (lit " TXT answer is ") (lit " TXT answer is " ++ s) ≡ true
unfolding lit has_prefix
size_prefix s = refl

covered_prefix :
    (s : Bytes)
    → has_prefix (lit " is already covered by ") (lit " is already covered by " ++ s) ≡ true
unfolding lit has_prefix
covered_prefix s = refl

limit_infix :
    (has_infix
        (lit "DNS lookups exceed the limit")
        (lit " DNS lookups exceed the limit of 10 (permerror: SPF fails entirely)")
      ≡ true)
    × (has_infix (lit "void lookups exceed the limit") (lit " void lookups exceed the limit of 2")
        ≡ true)
unfolding lit has_prefix has_infix
limit_infix = (refl, refl)

pub plus_all-IsKnown :
    (via : Bytes) → IsKnown (lit "+all authorises every sender (no protection)" ++ via)
unfolding spf_classes lit has_prefix has_infix
plus_all-IsKnown via = ground arith

pub neutral_all-IsKnown : (via : Bytes) → IsKnown (lit "?all is neutral (no protection)" ++ via)
unfolding spf_classes lit has_prefix has_infix
neutral_all-IsKnown via = ground arith

-- A text that says something of an include.
abbrev includes_with : Bytes → Bytes → Bool
includes_with q p = has_prefix (lit "include:") p && has_infix q p

include-includes_with :
    (q target s : Bytes)
    → has_prefix q s ≡ true
    → includes_with q (lit "include:" ++ (target ++ s)) ≡ true
unfolding lit has_prefix
include-includes_with q target s h =
    has_infix-behind q (lit "include:") (target ++ s)
      (has_infix-behind q target s (has_infix-of q s h))

pub include_missing-IsKnown :
    (target : Bytes) → IsKnown (lit "include:" ++ (target ++ lit " has no SPF record"))
unfolding spf_classes
include_missing-IsKnown target =
    let q = lit " has no SPF record" in
    ground (arith, include-includes_with q target q missing_prefix)

pub include_unchecked-IsKnown :
    (target : Bytes)
    → IsKnown
        (lit "include:" ++ (target ++ lit " could not be checked: its TXT lookup did not complete"))
unfolding spf_classes
include_unchecked-IsKnown target = ground (
  arith,
  include-includes_with (lit " could not be checked") target
      (lit " could not be checked: its TXT lookup did not complete") unchecked_prefix,
)

pub include_invalid-IsKnown :
    (target rest : Bytes)
    → IsKnown (lit "include:" ++ (target ++ (lit " is not a valid domain name (" ++ rest)))
unfolding spf_classes
include_invalid-IsKnown target rest = ground (
  arith,
  include-includes_with (lit " is not a valid domain name") target
      (lit " is not a valid domain name (" ++ rest) (invalid_prefix rest),
)

pub include_size-IsKnown :
    (target rest : Bytes) → IsKnown (lit "include:" ++ (target ++ (lit " TXT answer is " ++ rest)))
unfolding spf_classes
include_size-IsKnown target rest = ground (
  arith,
  include-includes_with (lit " TXT answer is ") target (lit " TXT answer is " ++ rest)
      (size_prefix rest),
)

pub loop-IsKnown : (rest : Bytes) → IsKnown (lit "include loop " ++ rest)
unfolding spf_classes lit has_prefix has_infix
loop-IsKnown rest = ground arith

pub apex_size-IsKnown : (rest : Bytes) → IsKnown (lit "apex TXT answer is " ++ rest)
unfolding spf_classes lit has_prefix has_infix
apex_size-IsKnown rest = ground arith

pub mechanism-IsKnown : (rest : Bytes) → IsKnown (lit "unknown mechanism " ++ rest)
unfolding spf_classes lit has_prefix has_infix
mechanism-IsKnown rest = ground arith

pub fixed-IsKnown :
    IsKnown (lit "ptr mechanism is deprecated (RFC 7208 §5.5)")
    × IsKnown (lit "record has no all mechanism or redirect (default neutral)")
    × IsKnown multiple_text
unfolding spf_classes multiple_text lit has_prefix has_infix
fixed-IsKnown = (refl, refl, refl)

-- The texts that name a count or a mechanism in front.
pub limit-IsKnown : (n : ℕ) → IsKnown (lookup_limit_text n) × IsKnown (void_limit_text n)
unfolding spf_classes lookup_limit_text void_limit_text has_prefix
limit-IsKnown n =
    let q = lit " DNS lookups exceed the limit of 10 (permerror: SPF fails entirely)" in
    let r = lit " void lookups exceed the limit of 2" in
    (
      ground
          (arith, has_infix-behind (lit "DNS lookups exceed the limit") (itoa n) q limit_infix.0),
      ground
          (arith, has_infix-behind (lit "void lookups exceed the limit") (itoa n) r limit_infix.1),
    )

pub covered_text-IsKnown : (domain : Bytes) (p q : SpfPrefix) → IsKnown (covered_text domain p q)
unfolding spf_classes has_prefix
covered_text-IsKnown domain p q =
    let s = lit " is already covered by " ++ (q.text ++ (lit " in " ++ domain)) in
    ground (
      arith,
      has_infix-behind (lit " is already covered by ") p.text s (
          has_infix-of (lit " is already covered by ") s
            (covered_prefix (q.text ++ (lit " in " ++ domain)))),
    )

-- The problems of an evaluation.
abbrev pub AreKnown : List Bytes → Type 0
AreKnown ps = All IsKnown ps

note_covered-AreKnown :
    (domain : Bytes) (p : SpfPrefix) (q : Option SpfPrefix) (later : List Bytes)
    → AreKnown later
    → AreKnown (note_covered domain p q later)
note_covered-AreKnown domain p none later h = h
note_covered-AreKnown domain p (some q) later h = (covered_text-IsKnown domain p q, h)

redundant_from-AreKnown :
    (domain : Bytes) (before after : List SpfPrefix) → AreKnown (redundant_from domain before after)
unfolding redundant_from
redundant_from-AreKnown domain before [] = tt
redundant_from-AreKnown domain before (p ∷ after) =
    note_covered-AreKnown domain p (covering before p after) _
      (redundant_from-AreKnown domain (before ++ p ∷ []) after)

pub redundant_ips-AreKnown :
    (net : NetIp) (mask : Netmask) (terms : List SpfTerm) (domain : Bytes)
    → AreKnown (redundant_ips net mask terms domain)
unfolding redundant_ips
redundant_ips-AreKnown net mask terms domain = redundant_from-AreKnown domain [] _
