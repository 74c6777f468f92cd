-- ===== src/Spf/Grows.antt =====
-- What the single steps of an evaluation only ever add to: the counts, the problems and the includes,
-- of which none is listed twice; and each problem is one that the report has a class for.
use domaintest.Prelude.{
  ltb, if◌then◌else◌, Bool-cases, All-append, ℕ, ◌≤◌, ◌≡◌, refl, inl, inr, Bool, true, false, ◌||◌,
  List, [], ◌∷◌, ◌++◌, arith,
}
use domaintest.Spf.Known.{
  AreKnown, IsKnown, plus_all-IsKnown, apex_size-IsKnown, include_size-IsKnown, neutral_all-IsKnown,
  fixed-IsKnown, mechanism-IsKnown,
}
use domaintest.Text.Laws.{IsDistinct, contains-append, IsDistinct-concat}
use domaintest.Text.{Bytes, contains, ◌=?◌, lit}
use domaintest.Spf.Terms.{SpfTerm}
use domaintest.Records.{Lookup, udp_answer_octets}
use domaintest.Spf.State.{
  Evaluator, problem, note_include, count_lookup, count_void, note_all, apex_size, include_size,
  term, problems_all,
}

-- The second state is one that the first may become.
pub record Grows (e e' : Evaluator) : Type 0 where
  pub lookups : e.lookups ≤ e'.lookups
  pub void : e.void ≤ e'.void
  pub problems : (p : Bytes) → contains p e.problems ≡ true → contains p e'.problems ≡ true
  pub includes : (p : Bytes) → contains p e.includes ≡ true → contains p e'.includes ≡ true
  pub distinct : IsDistinct e.problems → IsDistinct e'.problems
  pub each_once : IsDistinct e.includes → IsDistinct e'.includes
  pub known : AreKnown e.problems → AreKnown e'.problems

pub Grows-refl : (e : Evaluator) → Grows e e
Grows-refl e = record {
  lookups = omega arith;
  void = omega arith;
  problems = λ p h. h;
  includes = λ p h. h;
  distinct = λ d. d;
  each_once = λ d. d;
  known = λ k. k;
}

pub Grows-trans : {e f g : Evaluator} → Grows e f → Grows f g → Grows e g
Grows-trans a b = record {
  lookups = omega (arith, a.lookups, b.lookups);
  void = omega (arith, a.void, b.void);
  problems = λ p h. b.problems p (a.problems p h);
  includes = λ p h. b.includes p (a.includes p h);
  distinct = λ d. b.distinct (a.distinct d);
  each_once = λ d. b.each_once (a.each_once d);
  known = λ k. b.known (a.known k);
}

-- A text is added at the end unless it is there.
abbrev add_text : Bytes → List Bytes → List Bytes
add_text p ps = if contains p ps then ps else ps ++ p ∷ []

pub contains-add_text :
    (q p : Bytes) (ps : List Bytes) → contains q ps ≡ true → contains q (add_text p ps) ≡ true
contains-add_text q p ps h = ground (arith, h, contains-append q ps (p ∷ []))

pub add_text-IsDistinct : (p : Bytes) (ps : List Bytes) → IsDistinct ps → IsDistinct (add_text p ps)
add_text-IsDistinct p ps d = elim (Bool-cases (contains p ps)) [
  | inl h ↦ rw h d
  | inr h ↦ rw h (IsDistinct-concat ps p d h)
]

add_text-AreKnown :
    (p : Bytes) (ps : List Bytes) → IsKnown p → AreKnown ps → AreKnown (add_text p ps)
add_text-AreKnown p ps h k = elim (Bool-cases (contains p ps)) [
  | inl e ↦ rw e k
  | inr e ↦ rw e (All-append _ ps (p ∷ []) k (h, tt))
]

pub problem-record :
    (p : Bytes) (e : Evaluator) → problem p e ≡ record e { problems = add_text p e.problems }
unfolding problem
problem-record p e = elim (Bool-cases (contains p e.problems)) [
  | inl h ↦ rw h refl
  | inr h ↦ rw h refl
]

pub note_include-record :
    (t : Bytes) (e : Evaluator) → note_include t e ≡ record e { includes = add_text t e.includes }
unfolding note_include
note_include-record t e = elim (Bool-cases (contains t e.includes)) [
  | inl h ↦ rw h refl
  | inr h ↦ rw h refl
]

pub problem-Grows : (p : Bytes) (e : Evaluator) → IsKnown p → Grows e (problem p e)
problem-Grows p e h = rw (problem-record p e) (record {
  lookups = omega arith;
  void = omega arith;
  problems = λ q h. contains-add_text q p e.problems h;
  includes = λ q h. h;
  distinct = λ d. add_text-IsDistinct p e.problems d;
  each_once = λ d. d;
  known = λ k. add_text-AreKnown p e.problems h k;
})

pub note_include-Grows : (t : Bytes) (e : Evaluator) → Grows e (note_include t e)
note_include-Grows t e = rw (note_include-record t e) (record {
  lookups = omega arith;
  void = omega arith;
  problems = λ q h. h;
  includes = λ q h. contains-add_text q t e.includes h;
  distinct = λ d. d;
  each_once = λ d. add_text-IsDistinct t e.includes d;
  known = λ k. k;
})

pub count_lookup-Grows : (e : Evaluator) → Grows e (count_lookup e)
count_lookup-Grows e = record {
  lookups = omega arith;
  void = omega arith;
  problems = λ p h. h;
  includes = λ p h. h;
  distinct = λ d. d;
  each_once = λ d. d;
  known = λ k. k;
}

pub count_void-Grows : (e : Evaluator) → Grows e (count_void e)
count_void-Grows e = record {
  lookups = omega arith;
  void = omega arith;
  problems = λ p h. h;
  includes = λ p h. h;
  distinct = λ d. d;
  each_once = λ d. d;
  known = λ k. k;
}

-- Both ends of a test.
pub Grows-if : (b : Bool) {e f g : Evaluator} → Grows e f → Grows e g → Grows e (if b then f else g)
Grows-if true p q = p
Grows-if false p q = q

pub Grows-if_result :
    {X : Type 0} (b : Bool) {e : Evaluator} (r s : X × Evaluator)
    → Grows e r.1
    → Grows e s.1
    → Grows e (if b then r else s).1
Grows-if_result true r s p q = p
Grows-if_result false r s p q = q

pub problems_all-Grows :
    (ps : List Bytes) (e : Evaluator) → AreKnown ps → Grows e (problems_all ps e)
problems_all-Grows [] e k = Grows-refl e
problems_all-Grows (p ∷ ps) e k =
    Grows-trans (problem-Grows p e k.0) (problems_all-Grows ps (problem p e) k.1)

pub note_all-Grows : (q via : Bytes) (e : Evaluator) → Grows e (note_all q via e)
unfolding note_all
note_all-Grows q via e =
    Grows-if (q =? lit "+") (problem-Grows _ e (plus_all-IsKnown _))
      (Grows-if (q =? lit "?") (problem-Grows _ e (neutral_all-IsKnown _)) (Grows-refl e))

pub apex_size-Grows : (n : ℕ) (e : Evaluator) → Grows e (apex_size n e)
unfolding apex_size
apex_size-Grows n e =
    Grows-if (ltb 512 n) (problem-Grows _ e (apex_size-IsKnown _))
      (Grows-if (ltb 450 n) (problem-Grows _ e (apex_size-IsKnown _)) (Grows-refl e))

pub include_size-Grows : (t : Bytes) (l : Lookup) (e : Evaluator) → Grows e (include_size t l e)
unfolding include_size
include_size-Grows t l e =
    Grows-if (ltb 512 (udp_answer_octets l)) (problem-Grows _ e (include_size-IsKnown t _))
      (Grows-refl e)

pub term-Grows : (t : SpfTerm) (domain : Bytes) (e : Evaluator) → Grows e (term t domain e)
unfolding term
term-Grows t domain e =
    Grows-if (t.name =? lit "a" || t.name =? lit "mx" || t.name =? lit "exists")
      (count_lookup-Grows e)
      (Grows-if (t.name =? lit "ptr")
        (Grows-trans (count_lookup-Grows e) (problem-Grows _ (count_lookup e) fixed-IsKnown.0))
        (Grows-if (t.name =? lit "ip4" || t.name =? lit "ip6" || t.modifier) (Grows-refl e)
          (problem-Grows _ e (mechanism-IsKnown _))))
