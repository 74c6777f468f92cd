-- ===== src/Findings/Count.antt =====
-- report.go: the tallies of the nameservers by name.
use domaintest.Prelude.{if◌then◌else◌, is_nil, ℕ, ◌+◌, Bool, not, ◌&&◌, ◌||◌, List, [], ◌∷◌}
use domaintest.NsAudit.{NsServer, unanswered}
use domaintest.Text.{Bytes, first_non_empty, ◌=?◌}

-- `nsTally`
pub record NsTally : Type 0 where
  pub name : Bytes
  pub total : ℕ
  pub lame : ℕ
  pub silent : ℕ
  pub withheld : ℕ
  pub reason : Bytes
  pub reserved_why : Bytes

abbrev pub new_tally : Bytes → NsTally
new_tally name = record {
  name = name;
  total = 0;
  lame = 0;
  silent = 0;
  withheld = 0;
  reason = [];
  reserved_why = [];
}

-- The cases of the switch in `tallyServers`: a reserved address, a server that is authoritative, one
-- that never answered, and one that answered and is not authoritative.
unfoldable pub is_authoritative : NsServer → Bool
is_authoritative s = is_nil s.reserved_for && (is_nil s.error || s.aa)

unfoldable pub is_silent : NsServer → Bool
is_silent s = is_nil s.reserved_for && not (is_nil s.error || s.aa) && unanswered s.error

unfoldable pub count_server : NsServer → NsTally → NsTally
count_server s t =
    let t' = record t { total = t.total + 1 } in
    if not (is_nil s.reserved_for)
    then record t' {
      withheld = t.withheld + 1;
      reserved_why = first_non_empty (t.reserved_why ∷ s.reserved_for ∷ []);
    }
    else if is_nil s.error || s.aa
    then t'
    else if unanswered s.error
    then record t' { silent = t.silent + 1 }
    else record t' { lame = t.lame + 1; reason = first_non_empty (t.reason ∷ s.error ∷ []) }

-- The tallies in the order in which their names were first seen.
unfoldable pub tally_into : NsServer → List NsTally → List NsTally
tally_into s [] = count_server s (new_tally s.name) ∷ []
tally_into s (t ∷ ts) =
    let later = tally_into s ts in if t.name =? s.name then count_server s t ∷ ts else t ∷ later

-- `tallyServers`: the tallies; the warnings that it adds are `server_warnings` of the servers.
unfoldable pub tally_from : List NsServer → List NsTally → List NsTally
tally_from [] ts = ts
tally_from (s ∷ rest) ts = tally_from rest (tally_into s ts)

abbrev pub tally_servers : List NsServer → List NsTally
tally_servers servers = tally_from servers []
