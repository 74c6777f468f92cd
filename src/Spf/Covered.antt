-- ===== src/Spf/Covered.antt =====
-- An SPF mechanism that is named redundant authorises no address that the covering one does not.
use domaintest.Prelude.{
  leb, ◌==◌, Bool-cases, Option-cases, first, All, first-split, ℕ, zero, suc, ◌-◌, ◌/◌, ◌^◌, ◌≤◌,
  ◌≡◌, refl, sym, ap, ◌∙◌, inl, inr, Bool, true, false, not, ◌&&◌, some, List, [], ◌∷◌, ◌++◌,
  append_assoc, arith,
}
use domaintest.Spf.Terms.{SpfTerm}
use domaintest.Text.{Bytes}
use domaintest.Text.Laws.{=?_iff}
use mathlib.Core.Path.{subst}
use domaintest.Addr.{Addr, NetIp}
use domaintest.Spf.Prefixes.{
  Prefix, SpfPrefix, prefix_contains, covers, covering, covered_text, redundant_from, Netmask,
  spf_prefixes, redundant_ips, note_covered,
}
use native.Mathlib.Nat.{div-div-eq-div-mul, pow-suc}

shift-suc : (m a : ℕ) → m / 2 ^ suc a ≡ m / 2 ^ a / 2
shift-suc m a = ap (λ d. m / d) (pow-suc 2 a) ∙ sym (div-div-eq-div-mul m (2 ^ a) 2)

-- Two numbers that agree on their leading bits agree on fewer of them.
shift-more : (m n a b : ℕ) → b ≤ a → m / 2 ^ b ≡ n / 2 ^ b → m / 2 ^ a ≡ n / 2 ^ a
shift-more m n zero b le h =
    let q : b ≡ 0 = omega (arith, le) in subst (λ k. m / 2 ^ k ≡ n / 2 ^ k) q h
shift-more m n (suc a) b le h = elim (Bool-cases (leb b a)) [
  | inl e ↦
      shift-suc m a
      ∙ ap (λ d. d / 2) (shift-more m n a b (ground (arith, e)) h)
      ∙ sym (shift-suc n a)
  | inr e ↦ let q : b ≡ suc a = ground (arith, le, e) in subst (λ k. m / 2 ^ k ≡ n / 2 ^ k) q h
]

-- The leading bits of m are those of p, and p's, of which there are no fewer, are those of n.
contained :
    (m p n size q_bits p_bits : ℕ)
    → q_bits ≤ p_bits
    → (m / 2 ^ (size - q_bits) == p / 2 ^ (size - q_bits)) ≡ true
    → (p / 2 ^ (size - p_bits) == n / 2 ^ (size - p_bits)) ≡ true
    → (m / 2 ^ (size - q_bits) == n / 2 ^ (size - q_bits)) ≡ true
contained m p n size q_bits p_bits le h k =
    let s =
      shift-more p n (size - q_bits) (size - p_bits) (omega (arith, le)) (ground (arith, k)) in
    ground (arith, h, s)

abbrev prefix_of : Addr → ℕ → Prefix
prefix_of addr bits = record { addr = addr; bits = bits }

contains_trans :
    (q p a : Addr) (q_bits p_bits : ℕ)
    → q_bits ≤ p_bits
    → prefix_contains (prefix_of q q_bits) p ≡ true
    → prefix_contains (prefix_of p p_bits) a ≡ true
    → prefix_contains (prefix_of q q_bits) a ≡ true
unfolding prefix_contains
contains_trans (Addr.v4 q) (Addr.v4 p) (Addr.v4 n) qb pb le h k = contained q p n 32 qb pb le h k
contains_trans (Addr.v6 q x) (Addr.v6 p y) (Addr.v6 n z) qb pb le h k =
    let c = contained q p n 128 qb pb le (ground (arith, h)) (ground (arith, k)) in
    ground (arith, k, c)
contains_trans (Addr.v4 q) (Addr.v4 p) (Addr.v6 n z) qb pb le h k = absurd (ground (arith, k))
contains_trans (Addr.v4 q) (Addr.v6 p y) a qb pb le h k = absurd (ground (arith, h))
contains_trans (Addr.v6 q x) (Addr.v4 p) a qb pb le h k = absurd (ground (arith, h))
contains_trans (Addr.v6 q x) (Addr.v6 p y) (Addr.v4 n) qb pb le h k = absurd (ground (arith, k))

-- No address is in the first prefix and not in the second, for mechanisms of one qualifier.
abbrev pub IsCovered : Addr → SpfPrefix → SpfPrefix → Type 0
IsCovered a p q =
    (p.qualifier ≡ q.qualifier)
    × ((prefix_contains p.prefix a && not (prefix_contains q.prefix a)) ≡ false)

covers-IsCovered :
    (q_is_later : Bool) (q p : SpfPrefix) (a : Addr)
    → covers q_is_later q p ≡ true
    → IsCovered a p q
unfolding covers
covers-IsCovered q_is_later q p a h =
    let le : q.prefix.bits ≤ p.prefix.bits = ground (arith, h) in
    let c : prefix_contains q.prefix p.prefix.addr ≡ true = ground (arith, h) in
    (
      (=?_iff p.qualifier q.qualifier).0 (ground (arith, h)),
      elim (Bool-cases (prefix_contains p.prefix a)) [
        | inl k ↦
            let t =
              contains_trans q.prefix.addr p.prefix.addr a q.prefix.bits p.prefix.bits le c k in
            ground (arith, t)
        | inr k ↦ ground (arith, k)
      ],
    )

-- The entry q of the list `xs` covers p.
abbrev Covering : Addr → SpfPrefix → List SpfPrefix → Type 0
Covering a p xs =
    (q : SpfPrefix) × (pre : List SpfPrefix) × (post : List SpfPrefix) × (xs ≡ pre ++ (q ∷ post))
    × IsCovered a p q

covering_lem :
    (before after : List SpfPrefix) (p q : SpfPrefix) (a : Addr)
    → covering before p after ≡ some q
    → (pre : List SpfPrefix) × (post : List SpfPrefix) × (before ++ after ≡ pre ++ (q ∷ post))
      × IsCovered a p q
covering_lem before after p q a h = elim (Option-cases (first (λ x. covers false x p) before)) [
  | inl e ↦
      let k : first (λ x. covers true x p) after ≡ some q = unfold covering in (rw e at h) in
      let (pre, post, s, c) = first-split (λ x. covers true x p) after k in
      (
        before ++ pre,
        post,
        ap (◌++◌ before) s ∙ sym (append_assoc before pre (q ∷ post)),
        covers-IsCovered true q p a c,
      )
  | inr (x, e) ↦
      let k : some x ≡ some q = unfold covering in (rw e at h) in
      let (pre, post, s, c) = first-split (λ x. covers false x p) before (e ∙ k) in
      (
        pre,
        post ++ after,
        ap (λ l. l ++ after) s ∙ append_assoc pre (q ∷ post) after,
        covers-IsCovered false q p a c,
      )
]

-- The text names an entry of the list that another one covers.
abbrev pub IsRedundant : List SpfPrefix → Bytes → Addr → Bytes → Type 0
IsRedundant all_of domain a text =
    (p : SpfPrefix) × (q : SpfPrefix) × (before : List SpfPrefix) × (after : List SpfPrefix)
    × (pre : List SpfPrefix) × (post : List SpfPrefix) × (all_of ≡ before ++ (p ∷ after))
    × (before ++ after ≡ pre ++ (q ∷ post))
    × (text ≡ covered_text domain p q)
    × IsCovered a p q

redundant_from-cons :
    (domain : Bytes) (before : List SpfPrefix) (p : SpfPrefix) (after : List SpfPrefix)
    → redundant_from domain before (p ∷ after)
      ≡ note_covered domain p
          (covering before p after)
          (redundant_from domain (before ++ p ∷ []) after)
unfolding redundant_from
redundant_from-cons domain before p after = refl

redundant_from_lem :
    (domain : Bytes) (a : Addr) (all_of before after : List SpfPrefix)
    → all_of ≡ before ++ after
    → All (IsRedundant all_of domain a) (redundant_from domain before after)
redundant_from_lem domain a all_of before [] s = unfold redundant_from in tt
redundant_from_lem domain a all_of before (p ∷ after) s =
    let rest =
      redundant_from_lem domain a all_of (before ++ p ∷ []) after
        (s ∙ sym (append_assoc before (p ∷ []) after)) in
    rw (redundant_from-cons domain before p after) (elim (Option-cases (covering before p after)) [
      | inl e ↦ rw e rest
      | inr (q, e) ↦
          let (pre, post, t, c) = covering_lem before after p q a e in
          rw e ((p, q, before, after, pre, post, s, t, refl, c), rest)
    ])

module _ (net : NetIp) (mask : Netmask) where
  -- Every text names a mechanism and another one of the same qualifier, and an address in the network
  -- of the first is in that of the second, for any address.
  pub redundant_ips_lem :
      (terms : List SpfTerm) (domain : Bytes) (a : Addr)
      → All
          (IsRedundant (spf_prefixes net mask terms) domain a)
          (redundant_ips net mask terms domain)
  redundant_ips_lem terms domain a =
      unfold redundant_ips in
      redundant_from_lem domain a (spf_prefixes net mask terms) [] (spf_prefixes net mask terms)
        refl
