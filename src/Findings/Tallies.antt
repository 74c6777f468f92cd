-- ===== src/Findings/Tallies.antt =====
-- What the tallies of the nameservers count.
use domaintest.Prelude.{
  if◌then◌else◌, Bool-cases, length, is_nil, any, keep, All, All-weaken, ℕ, ◌+◌, ◌≡◌, refl, sym, ap,
  ◌∙◌, inl, inr, Bool, false, not, ◌&&◌, ◌||◌, List, [], ◌∷◌, ◌++◌, map, arith,
}
use domaintest.Text.Laws.{=?_iff, IsDistinct, =?_comm, IsDistinct-concat, =?_refl}
use domaintest.Findings.Count.{
  NsTally, new_tally, count_server, tally_into, tally_from, is_silent, tally_servers,
}
use domaintest.NsAudit.{NsServer, unanswered}
use domaintest.Text.{Bytes, ◌=?◌, contains}

abbrev pub is_named : Bytes → NsServer → Bool
is_named n s = s.name =? n

-- The tally of a name, with nothing counted for a name not seen.
tally_of : Bytes → List NsTally → NsTally
tally_of n [] = new_tally n
tally_of n (t ∷ ts) = let later = tally_of n ts in if t.name =? n then t else later

count_server-name : (s : NsServer) (t : NsTally) → (count_server s t).name ≡ t.name
unfolding count_server
count_server-name s t = ground arith

tally_of-tally_into :
    (n : Bytes) (s : NsServer) (ts : List NsTally)
    → tally_of n (tally_into s ts)
      ≡ (if is_named n s then count_server s (tally_of n ts) else tally_of n ts)
unfolding tally_of tally_into
tally_of-tally_into n s [] =
    let q : ((count_server s (new_tally s.name)).name =? n) ≡ (s.name =? n) =
      ap (λ m. m =? n) (count_server-name s (new_tally s.name)) in
    elim (Bool-cases (s.name =? n)) [
      | inl e ↦ rw (q ∙ e) (rw e (ap (λ m. count_server s (new_tally m)) ((=?_iff s.name n).0 e)))
      | inr e ↦ rw (q ∙ e) (rw e refl)
    ]
tally_of-tally_into n s (t ∷ ts) = ground (
  arith,
  tally_of-tally_into n s ts,
  count_server-name s t,
  =?_iff t.name s.name,
  =?_iff s.name n,
  =?_iff t.name n,
)

-- The tallies by name after some more servers.
count_all : List NsServer → NsTally → NsTally
count_all [] t = t
count_all (s ∷ rest) t = count_all rest (count_server s t)

tally_of-tally_from :
    (n : Bytes) (servers : List NsServer) (ts : List NsTally)
    → tally_of n (tally_from servers ts) ≡ count_all (keep (is_named n) servers) (tally_of n ts)
unfolding tally_from count_all
tally_of-tally_from n [] ts = refl
tally_of-tally_from n (s ∷ rest) ts =
    ground (arith, tally_of-tally_from n rest (tally_into s ts), tally_of-tally_into n s ts)

-- The servers of a kind.
abbrev pub number : (NsServer → Bool) → List NsServer → ℕ
number p servers = length (keep p servers)

-- Answered without authority.
abbrev pub is_lame : NsServer → Bool
is_lame s = is_nil s.reserved_for && not (is_nil s.error || s.aa) && not (unanswered s.error)

abbrev pub is_withheld : NsServer → Bool
is_withheld s = not (is_nil s.reserved_for)

count_all-counts :
    (servers : List NsServer) (t : NsTally)
    → ((count_all servers t).total ≡ t.total + length servers)
      × ((count_all servers t).silent ≡ t.silent + number is_silent servers)
      × ((count_all servers t).lame ≡ t.lame + number is_lame servers)
      × ((count_all servers t).withheld ≡ t.withheld + number is_withheld servers)
unfolding count_all count_server is_silent
count_all-counts [] t = (omega arith, omega arith, omega arith, omega arith)
count_all-counts (s ∷ rest) t = ground (arith, count_all-counts rest (count_server s t))

-- Each name has one tally.
abbrev names_of : List NsTally → List Bytes
names_of ts = map (λ t. t.name) ts

tally_into-names :
    (s : NsServer) (ts : List NsTally)
    → names_of (tally_into s ts)
      ≡ (if contains s.name (names_of ts) then names_of ts else names_of ts ++ s.name ∷ [])
unfolding tally_into contains
tally_into-names s [] = rw (count_server-name s (new_tally s.name)) refl
tally_into-names s (t ∷ ts) =
    ground (arith, tally_into-names s ts, count_server-name s t, =?_comm t.name s.name)

tally_into-IsDistinct :
    (s : NsServer) (ts : List NsTally)
    → IsDistinct (names_of ts)
    → IsDistinct (names_of (tally_into s ts))
tally_into-IsDistinct s ts d = elim (Bool-cases (contains s.name (names_of ts))) [
  | inl e ↦ rw (tally_into-names s ts) (rw e d)
  | inr e ↦ rw (tally_into-names s ts) (rw e (IsDistinct-concat _ s.name d e))
]

tally_from-IsDistinct :
    (servers : List NsServer) (ts : List NsTally)
    → IsDistinct (names_of ts)
    → IsDistinct (names_of (tally_from servers ts))
unfolding tally_from
tally_from-IsDistinct [] ts d = d
tally_from-IsDistinct (s ∷ rest) ts d =
    tally_from-IsDistinct rest (tally_into s ts) (tally_into-IsDistinct s ts d)

-- With each name once, the tally in the list is the tally of its name.
tally_of-skip :
    (t : NsTally) (ts us : List NsTally)
    → contains t.name (names_of us) ≡ false
    → All (λ u. tally_of u.name ts ≡ u) us
    → All (λ u. tally_of u.name (t ∷ ts) ≡ u) us
unfolding tally_of contains
tally_of-skip t ts [] h a = tt
tally_of-skip t ts (u ∷ us) h a =
    (ground (arith, h, a.0, =?_comm t.name u.name), tally_of-skip t ts us (ground (arith, h)) a.1)

tally_of-All : (ts : List NsTally) → IsDistinct (names_of ts) → All (λ t. tally_of t.name ts ≡ t) ts
unfolding tally_of
tally_of-All [] d = tt
tally_of-All (t ∷ ts) d =
    (ground (arith, =?_refl t.name), tally_of-skip t ts ts d.0 (tally_of-All ts d.1))

-- What a tally counts.
abbrev pub IsCount : List NsServer → NsTally → Type 0
IsCount servers t =
    (t.total ≡ number (is_named t.name) servers)
    × (t.silent ≡ number is_silent (keep (is_named t.name) servers))
    × (t.lame ≡ number is_lame (keep (is_named t.name) servers))
    × (t.withheld ≡ number is_withheld (keep (is_named t.name) servers))

tally_of-IsCount :
    (servers : List NsServer) (t : NsTally)
    → tally_of t.name (tally_servers servers) ≡ t
    → IsCount servers t
unfolding tally_of
tally_of-IsCount servers t e =
    let q : count_all (keep (is_named t.name) servers) (new_tally t.name) ≡ t =
      sym (tally_of-tally_from t.name servers []) ∙ e in
    let c = count_all-counts (keep (is_named t.name) servers) (new_tally t.name) in
    (
      omega (arith, sym (ap (λ u. u.total) q) ∙ c.0),
      omega (arith, sym (ap (λ u. u.silent) q) ∙ c.1),
      omega (arith, sym (ap (λ u. u.lame) q) ∙ c.2),
      omega (arith, sym (ap (λ u. u.withheld) q) ∙ c.3),
    )

tally_into-contains :
    (n : Bytes) (s : NsServer) (ts : List NsTally)
    → contains n (names_of (tally_into s ts)) ≡ (is_named n s || contains n (names_of ts))
unfolding tally_into contains
tally_into-contains n s [] = ground (arith, count_server-name s (new_tally s.name))
tally_into-contains n s (t ∷ ts) =
    ground (arith, tally_into-contains n s ts, count_server-name s t, =?_iff t.name s.name)

tally_from-contains :
    (n : Bytes) (servers : List NsServer) (ts : List NsTally)
    → contains n (names_of (tally_from servers ts))
      ≡ (any (is_named n) servers || contains n (names_of ts))
unfolding tally_from
tally_from-contains n [] ts = refl
tally_from-contains n (s ∷ rest) ts =
    ground (arith, tally_from-contains n rest (tally_into s ts), tally_into-contains n s ts)

-- The names with a tally are exactly those of the nameservers, and each has one tally, which
-- counts its addresses, those that never answered, those that answered without authority and those
-- that are reserved.
pub tally_servers_lem :
    (servers : List NsServer)
    → ((n : Bytes)
        → contains n (map (λ t. t.name) (tally_servers servers)) ≡ any (is_named n) servers)
      × IsDistinct (map (λ t. t.name) (tally_servers servers))
      × All (IsCount servers) (tally_servers servers)
unfolding contains
tally_servers_lem servers =
    let d = tally_from-IsDistinct servers [] tt in
    (
      λ n. ground (arith, tally_from-contains n servers []),
      d,
      All-weaken _ _ (tally_of-IsCount servers) (tally_servers servers) (tally_of-All _ d),
    )
