-- ===== src/Spf/Terms.antt =====
-- mail.go: the terms of an SPF record.
-- `spfTerm`
use domaintest.Text.{Bytes, to_lower, trim_space, lit, fields, ◌=?◌, trim_prefix, has_prefix, cut}
use domaintest.Prelude.{
  ◌==◌, if◌then◌else◌, is_nil, drop, any, keep, ℕ, Bool, true, false, not, ◌&&◌, ◌||◌, Option, none,
  some, List, [], ◌∷◌, ◌++◌, map,
}

pub record SpfTerm : Type 0 where
  pub qualifier : Bytes
  pub name : Bytes
  pub arg : Bytes
  pub modifier : Bool

-- `isSPFRecord` and `spfRecords`
unfoldable pub is_spf_record : Bytes → Bool
is_spf_record r =
    let s = to_lower (trim_space r) in s =? lit "v=spf1" || has_prefix (lit "v=spf1 ") s

unfoldable pub spf_records : List Bytes → List Bytes
unfolding is_spf_record
spf_records txt = map trim_space (keep is_spf_record txt)

-- `strings.IndexAny(f, ":/")`: what stands before the first of the two, and from it on.
cut_argument : Bytes → Bytes × Bytes
cut_argument [] = ([], [])
cut_argument (c ∷ s) =
    let (a, b) = cut_argument s in if c == b':' || c == b'/' then ([], c ∷ s) else (c ∷ a, b)

abbrev is_modifier_name : Bytes → Bool
is_modifier_name name = not (is_nil name) && not (any (λ c. c == b':') name)

mechanism_term : Bytes → Bytes → SpfTerm
unfolding cut_argument
mechanism_term qualifier f =
    let (name, arg) = cut_argument f in
    if not (is_nil name) && not (is_nil arg)
    then record { qualifier = qualifier; name = to_lower name; arg = arg; modifier = false }
    else record { qualifier = qualifier; name = to_lower f; arg = []; modifier = false }

-- A term behind its qualifier: a modifier `name=arg`, or a mechanism.
unqualified : Bytes → Bytes → Bytes × Option Bytes → SpfTerm
unfolding mechanism_term
unqualified qualifier f (name, none) = mechanism_term qualifier f
unqualified qualifier f (name, some arg) =
    if is_modifier_name name
    then record { qualifier = qualifier; name = to_lower name; arg = arg; modifier = true }
    else mechanism_term qualifier f

abbrev is_qualifier : ℕ → Bool
is_qualifier c = c == b'+' || c == b'-' || c == b'~' || c == b'?'

unfoldable pub parse_spf_term : Bytes → SpfTerm
unfolding unqualified
parse_spf_term [] = unqualified (lit "+") [] (cut [] b'=')
parse_spf_term (c ∷ s) =
    if is_qualifier c
    then unqualified (c ∷ []) s (cut s b'=')
    else unqualified (lit "+") (c ∷ s) (cut (c ∷ s) b'=')

-- `parseSPFTerms`
unfoldable pub parse_spf_terms : Bytes → List SpfTerm
unfolding parse_spf_term
parse_spf_terms spf = map parse_spf_term (drop 1 (fields spf))

-- `recordAll` and `spfTarget`
unfoldable pub record_all : List SpfTerm → Bytes
record_all [] = []
record_all (t ∷ rest) =
    let later = record_all rest in
    if t.name =? lit "all" && not t.modifier then t.qualifier ++ lit "all" else later

unfoldable pub spf_target : SpfTerm → Bytes
spf_target t = trim_prefix (lit ":") t.arg

unfoldable pub contains_percent : Bytes → Bool
contains_percent = any (λ c. c == b'%')
