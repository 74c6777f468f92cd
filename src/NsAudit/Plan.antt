-- ===== src/NsAudit/Plan.antt =====
-- Which addresses are queried.
use domaintest.Prelude.{is_nil, keep, ◌≡◌, refl, Bool, not, ◌&&◌, List, [], ◌∷◌, map, arith}
use domaintest.Addr.Reserved.{reserved_reason}
use domaintest.NsAudit.{plan, reserved_server, family_of, NsServer}
use domaintest.Text.{Bytes, contains}
use domaintest.Addr.{NetIp, Addr}

module _ (net : NetIp) where
  -- Whether the address is of a family that is audited.
  abbrev pub is_wanted : List Bytes → Bytes × Addr → Bool
  is_wanted families t = contains (family_of net t.1) families

  abbrev pub is_allowed : Bytes × Addr → Bool
  is_allowed t = is_nil (reserved_reason net t.1)

  -- How a reserved address is reported: under its nameserver, with the reason.
  abbrev pub Entry : Type 0
  Entry = Bytes × Bytes × Bytes

  abbrev pub as_reported : NsServer → Entry
  as_reported s = (s.name, s.ip, s.reserved_for)

  abbrev pub expected : Bytes × Addr → Entry
  expected t = (t.0, net.addr_string t.1, reserved_reason net t.1)

  -- The tasks, and the servers that are reported at once.
  abbrev pub IsPlan : List Bytes → List (Bytes × Addr) → Type 0
  IsPlan families targets =
      ((plan net families targets).1 ≡ keep (λ t. is_wanted families t && is_allowed t) targets)
      × (map as_reported (plan net families targets).0
          ≡ map expected (keep (λ t. is_wanted families t && not (is_allowed t)) targets))

  -- Of the addresses in the families asked for, a task is queued for exactly those that are not
  -- reserved, in their order and each with its nameserver; exactly the others are reported at
  -- once, in their order, each with its nameserver, its text and the reason why it is reserved.
  pub plan_lem : (families : List Bytes) (targets : List (Bytes × Addr)) → IsPlan families targets
  unfolding plan reserved_server
  plan_lem families [] = (refl, refl)
  plan_lem families (t ∷ rest) = let (a, b) = plan_lem families rest in ground (arith, a, b)
