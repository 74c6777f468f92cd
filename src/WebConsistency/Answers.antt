-- ===== src/WebConsistency/Answers.antt =====
-- When the answers to one URL differ.
use domaintest.Prelude.{
  ltb, if◌then◌else◌, Bool-cases, length, any, all, ℕ, ◌+◌, ◌<◌, ◌≡◌, refl, ap, inl, inr, Bool,
  true, not, ◌&&◌, ◌||◌, List, [], ◌∷◌, map, arith,
}
use domaintest.Text.Laws.{=?_iff}
use domaintest.WebConsistency.{
  WebObservation, count_answer, count_answers, sort_answers, insert_answer, answer_tally,
  share_text,
}
use domaintest.Text.{Bytes, ◌=?◌, contains}

-- Every answer is the first one.
abbrev pub agree : List WebObservation → Bool
agree [] = true
agree (o ∷ rest) = all (λ p. p.answer =? o.answer) rest

length-insert_answer :
    (a : Bytes × ℕ) (m : List (Bytes × ℕ)) → length (insert_answer a m) ≡ length m + 1
unfolding insert_answer
length-insert_answer a [] = omega arith
length-insert_answer a (b ∷ rest) = ground (arith, length-insert_answer a rest)

length-sort_answers : (m : List (Bytes × ℕ)) → length (sort_answers m) ≡ length m
unfolding sort_answers
length-sort_answers [] = refl
length-sort_answers (a ∷ rest) =
    ground (arith, length-sort_answers rest, length-insert_answer a (sort_answers rest))

length-map {ℓ κ} :
    {A : Type ℓ} {B : Type κ} (f : A → B) (xs : List A) → length (map f xs) ≡ length xs
length-map f [] = refl
length-map f (x ∷ xs) = ground (arith, length-map f xs)

-- The answers counted, and how often.
abbrev keys : List (Bytes × ℕ) → List Bytes
keys m = map (λ e. e.0) m

abbrev pub sum : List (Bytes × ℕ) → ℕ
sum [] = 0
sum (e ∷ rest) = e.1 + sum rest

count_answer-sum : (a : Bytes) (m : List (Bytes × ℕ)) → sum (count_answer a m) ≡ sum m + 1
unfolding count_answer
count_answer-sum a [] = omega arith
count_answer-sum a (e ∷ rest) = ground (arith, count_answer-sum a rest)

count_answers-sum : (obs : List WebObservation) → sum (count_answers obs) ≡ length obs
unfolding count_answers
count_answers-sum [] = refl
count_answers-sum (o ∷ rest) =
    ground (arith, count_answers-sum rest, count_answer-sum o.answer (count_answers rest))

-- One more answer makes one more entry unless it is there.
length-count_answer :
    (a : Bytes) (m : List (Bytes × ℕ))
    → length (count_answer a m) ≡ (if contains a (keys m) then length m else length m + 1)
unfolding count_answer contains
length-count_answer a [] = omega arith
length-count_answer a (e ∷ rest) = ground (arith, length-count_answer a rest)

contains-count_answer :
    (x a : Bytes) (m : List (Bytes × ℕ))
    → contains x (keys (count_answer a m)) ≡ (a =? x || contains x (keys m))
unfolding count_answer contains
contains-count_answer x a [] = ground arith
contains-count_answer x a (e ∷ rest) =
    ground (arith, contains-count_answer x a rest, =?_iff e.0 a, =?_iff e.0 x, =?_iff a x)

contains-count_answers :
    (x : Bytes) (obs : List WebObservation)
    → contains x (keys (count_answers obs)) ≡ any (λ o. o.answer =? x) obs
unfolding count_answers contains
contains-count_answers x [] = refl
contains-count_answers x (o ∷ rest) =
    ground
      (arith, contains-count_answers x rest, contains-count_answer x o.answer (count_answers rest))

-- Agreement goes through an answer that is there.
all-any-agree :
    (x y : Bytes) (obs : List WebObservation)
    → any (λ o. o.answer =? x) obs ≡ true
    → all (λ o. o.answer =? y) obs ≡ true
    → x ≡ y
all-any-agree x y [] h k = absurd (ground arith)
all-any-agree x y (o ∷ rest) h k = elim (Bool-cases (o.answer =? x)) [
  | inl e ↦ ground (arith, k, =?_iff o.answer x, =?_iff o.answer y, e)
  | inr e ↦ all-any-agree x y rest (ground (arith, h, e)) (ground (arith, k))
]

count_answer-pos : (a : Bytes) (m : List (Bytes × ℕ)) → 0 < length (count_answer a m)
unfolding count_answer
count_answer-pos a [] = omega arith
count_answer-pos a (e ∷ rest) = ground (arith, count_answer-pos a rest)

-- One more observation before another.
agree-cons :
    (o p : WebObservation) (rest : List WebObservation)
    → agree (o ∷ p ∷ rest) ≡ (any (λ q. q.answer =? o.answer) (p ∷ rest) && agree (p ∷ rest))
agree-cons o p rest = elim (Bool-cases (p.answer =? o.answer)) [
  | inl e ↦
      let q : p.answer ≡ o.answer = (=?_iff p.answer o.answer).0 e in
      let r : agree (p ∷ rest) ≡ all (λ x. x.answer =? o.answer) rest =
        ap (λ y. all (λ x. x.answer =? y) rest) q in
      ground (arith, e, r)
  | inr e ↦ elim (Bool-cases (any (λ x. x.answer =? o.answer) rest && agree (p ∷ rest))) [
    | inl f ↦
        let q : o.answer ≡ p.answer =
          all-any-agree o.answer p.answer rest (ground (arith, f)) (ground (arith, f)) in
        absurd (ground (arith, e, =?_iff p.answer o.answer, q))
    | inr f ↦ ground (arith, e, f)
  ]
]

count_answers-agree :
    (obs : List WebObservation) → ltb 1 (length (count_answers obs)) ≡ not (agree obs)
unfolding count_answers count_answer
count_answers-agree [] = refl
count_answers-agree (o ∷ []) = refl
count_answers-agree (o ∷ p ∷ rest) = ground (
  arith,
  agree-cons o p rest,
  count_answers-agree (p ∷ rest),
  length-count_answer o.answer (count_answers (p ∷ rest)),
  contains-count_answers o.answer (p ∷ rest),
  count_answer-pos p.answer (count_answers rest),
)

-- The answers to one URL are said to differ exactly when two observations have different answers,
-- and the counts of the answers add up to the number of observations.
pub answer_tally-agree :
    (obs : List WebObservation)
    → (ltb 1 (length (answer_tally obs)) ≡ not (agree obs)) × (sum (count_answers obs) ≡ length obs)
unfolding answer_tally
answer_tally-agree obs = (
  ground (
    arith,
    length-map (share_text (length obs)) (sort_answers (count_answers obs)),
    length-sort_answers (count_answers obs),
    count_answers-agree obs,
  ),
  count_answers-sum obs,
)
