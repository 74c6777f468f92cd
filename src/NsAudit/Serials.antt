-- ===== src/NsAudit/Serials.antt =====
-- When the serials are reported as consistent, and that the order of the servers is nothing to it.
-- The serials of the servers that count: none, one, or several that differ.
use domaintest.Prelude.{
  if◌then◌else◌, ℤ, ℤ_beq, fold_perm, ◌≡◌, refl, sym, ap, ◌∙◌, Bool, true, false, Option, none,
  some, List, [], ◌∷◌, ◌++◌, arith, pos, negsuc,
}
use mathlib.Core.List.{Perm}
use domaintest.NsAudit.{
  NsServer, serials_from, serials_consistent, counts, insert_server, sort_servers, audit_all,
}

pub data Summary : Type 0 where
  nothing : Summary
  one : ℤ → Summary
  mixed : Summary

-- A server's serial added to a summary.
abbrev pub add_serial : ℤ → Summary → Summary
add_serial z Summary.nothing = Summary.one z
add_serial z (Summary.one y) = if ℤ_beq z y then Summary.one y else Summary.mixed
add_serial z Summary.mixed = Summary.mixed

abbrev pub add_server : NsServer → Summary → Summary
add_server s m = if counts s then add_serial s.serial m else m

abbrev pub summary : List NsServer → Summary
summary [] = Summary.nothing
summary (s ∷ rest) = add_server s (summary rest)

-- Unknown without a serial to compare, and else whether there is one only.
abbrev pub verdict : Summary → Option Bool
verdict Summary.nothing = none
verdict (Summary.one z) = some true
verdict Summary.mixed = some false

ℤ_beq-eq : (x y : ℤ) → ℤ_beq x y ≡ true → x ≡ y
ℤ_beq-eq (pos m) (pos n) h = ground arith
ℤ_beq-eq (negsuc m) (negsuc n) h = ground arith
ℤ_beq-eq _ _ h = cc

ℤ_beq_refl : (x : ℤ) → ℤ_beq x x ≡ true
ℤ_beq_refl (pos m) = ground arith
ℤ_beq_refl (negsuc m) = ground arith

ℤ_beq_comm : (x y : ℤ) → ℤ_beq x y ≡ ℤ_beq y x
ℤ_beq_comm (pos m) (pos n) = ground arith
ℤ_beq_comm (negsuc m) (negsuc n) = ground arith
ℤ_beq_comm _ _ = refl

add_serial_comm :
    (x y : ℤ) (m : Summary) → add_serial x (add_serial y m) ≡ add_serial y (add_serial x m)
add_serial_comm x y Summary.nothing = ground (arith, ℤ_beq-eq x y, ℤ_beq_comm x y)
add_serial_comm x y (Summary.one z) = ground (arith, ℤ_beq-eq x z, ℤ_beq-eq y z)
add_serial_comm x y Summary.mixed = refl

add_server_comm :
    (s t : NsServer) (m : Summary) → add_server s (add_server t m) ≡ add_server t (add_server s m)
add_server_comm s t m = ground (arith, add_serial_comm s.serial t.serial m)

verdict-add_serial :
    (y z : ℤ) (m : Summary)
    → verdict (add_serial z (add_serial y m))
      ≡ (if ℤ_beq y z then verdict (add_serial y m) else some false)
verdict-add_serial y z Summary.nothing = ground (arith, ℤ_beq_comm y z)
verdict-add_serial y z (Summary.one x) =
    ground (arith, ℤ_beq-eq z x, ℤ_beq-eq y x, ℤ_beq-eq y z, ℤ_beq_refl y, ℤ_beq_refl z)
verdict-add_serial y z Summary.mixed = ground arith

-- The loop that has seen a serial agrees with the summary to which that serial is added.
serials_from-some :
    (z : ℤ) (servers : List NsServer)
    → serials_from (some z) servers ≡ verdict (add_serial z (summary servers))
unfolding serials_from
serials_from-some z [] = refl
serials_from-some z (s ∷ rest) = ground (
  arith,
  serials_from-some z rest,
  serials_from-some s.serial rest,
  verdict-add_serial s.serial z (summary rest),
)

serials_from-none :
    (servers : List NsServer) → serials_from none servers ≡ verdict (summary servers)
unfolding serials_from
serials_from-none [] = refl
serials_from-none (s ∷ rest) =
    ground (arith, serials_from-none rest, serials_from-some s.serial rest)

summary-perm : {xs ys : List NsServer} → Perm xs ys → summary xs ≡ summary ys
summary-perm = fold_perm summary add_server (λ s rest. refl) add_server_comm hlevel

serials-verdict : (servers : List NsServer) → serials_consistent servers ≡ verdict (summary servers)
unfolding serials_consistent
serials-verdict = serials_from-none

-- The loop, which compares each serial with the one before, decides whether all the serials that
-- count are one, and is undecided without any; the order of the servers does not matter.
pub serials_consistent_lem :
    {servers servers' : List NsServer}
    → Perm servers servers'
    → (serials_consistent servers ≡ verdict (summary servers))
      × (serials_consistent servers ≡ serials_consistent servers')
serials_consistent_lem {servers} {servers'} p = (
  serials-verdict servers,
  serials-verdict servers ∙ ap verdict (summary-perm p) ∙ sym (serials-verdict servers'),
)

insert_server-summary :
    (s : NsServer) (xs : List NsServer) → summary (insert_server s xs) ≡ summary (s ∷ xs)
unfolding insert_server
insert_server-summary s [] = refl
insert_server-summary s (x ∷ xs) =
    ground (arith, insert_server-summary s xs, add_server_comm s x (summary xs))

sort_servers-summary : (xs : List NsServer) → summary (sort_servers xs) ≡ summary xs
unfolding sort_servers
sort_servers-summary [] = refl
sort_servers-summary (s ∷ xs) =
    insert_server-summary s (sort_servers xs) ∙ ap (add_server s) (sort_servers-summary xs)

append-summary :
    (xs ys ys' : List NsServer)
    → summary ys ≡ summary ys'
    → summary (xs ++ ys) ≡ summary (xs ++ ys')
append-summary [] ys ys' h = h
append-summary (x ∷ xs) ys ys' h = ap (add_server x) (append-summary xs ys ys' h)

-- The verdict on the serials is the same in whatever order the parallel audits finish.
pub audit_all_lem :
    (at_once : List NsServer) {finished finished' : List NsServer}
    → Perm finished finished'
    → (audit_all at_once finished).1 ≡ (audit_all at_once finished').1
audit_all_lem at_once {finished} {finished'} p =
    let e : summary (at_once ++ finished) ≡ summary (at_once ++ finished') =
      append-summary at_once finished finished' (summary-perm p) in
    unfold audit_all in
    (serials-verdict (sort_servers (at_once ++ finished))
      ∙ ap verdict (
          sort_servers-summary (at_once ++ finished)
          ∙ e
          ∙ sym (sort_servers-summary (at_once ++ finished')))
      ∙ sym (serials-verdict (sort_servers (at_once ++ finished'))))
