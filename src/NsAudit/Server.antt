-- ===== src/NsAudit/Server.antt =====
-- What the audit of one server reports, and when it asks again.
-- A report without an error is that of an authoritative server, and only an authoritative server is
-- said to have sent no SOA record.
use domaintest.Prelude.{
  Bool-cases, is_nil, first, ℕ, ◌≡◌, refl, ap, ◌∙◌, ◌≢◌, ◌↔◌, ◌⊎◌, inl, inr, Bool, true, false, not,
  ◌&&◌, Option, some, List, [], ◌∷◌, arith,
}
use domaintest.Dig.Messages.{run_dig_lem}
use domaintest.Trace.Ask.{Runner}
use domaintest.Dig.{DigMessage}
use domaintest.Text.{lit, Bytes, first_non_empty}
use domaintest.Addr.{NetIp, Addr}
use domaintest.NsAudit.{
  NsServer, not_authoritative, interpret_audit, audit_messages, udp_aa, new_server, audit_once,
  ns_audit_args, audit_server, unanswered,
}

abbrev pub IsSound : NsServer → Type 0
IsSound s = ((s.error ≡ []) ↔ (s.aa ≡ true)) × ((s.no_soa && not s.aa) ≡ false)

not_authoritative-ne : (status : Bytes) → not_authoritative status ≢ []
unfolding not_authoritative lit
not_authoritative-ne status h = ground arith

interpret_audit-IsSound :
    (s : NsServer) (udp : DigMessage) (more : List DigMessage)
    → IsSound (interpret_audit s udp more)
unfolding interpret_audit
interpret_audit-IsSound s udp more = elim (Bool-cases (udp_aa udp)) [
  | inl e ↦ rw e (ground arith)
  | inr e ↦ rw e ((λ h. absurd (not_authoritative-ne udp.status h), λ h. cc), ground arith)
]

first_non_empty-head : (a b : Bytes) → is_nil a ≡ false → first_non_empty (a ∷ b ∷ []) ≢ []
unfolding first_non_empty
first_non_empty-head a b e h = ground arith

-- An audit that has a message to read is sound.
abbrev HasAudit : Option NsServer → ℕ → Type 0
HasAudit r n = (s : NsServer) × (r ≡ some s) × IsSound s × (s.retries ≡ n)

module _ (net : NetIp) where
  audit_messages-IsSound :
      (name ip : Bytes) (m : DigMessage) (ms : List DigMessage)
      → HasAudit (audit_messages net (new_server name ip) (m ∷ ms)) 0
  audit_messages-IsSound name ip m ms = elim (Bool-cases (is_nil m.error)) [
    | inl e ↦ (
      interpret_audit (new_server name ip) m ms,
      unfold audit_messages in rw e refl,
      interpret_audit-IsSound (new_server name ip) m ms,
      unfold interpret_audit in refl,
    )
    | inr e ↦
        let text = first_non_empty (m.error ∷ lit "no response" ∷ []) in
        (
          record (new_server name ip) { error = text },
          unfold audit_messages in rw e refl,
          ((λ h. absurd (first_non_empty-head m.error (lit "no response") e h), λ h. cc), refl),
          refl,
        )
  ]

  audit_once-HasAudit :
      (run : Runner) (name : Bytes) (ip : Addr) (domain : Bytes) (timeout : ℕ)
      → HasAudit (audit_once net run name ip domain timeout) 0
  audit_once-HasAudit run name ip domain timeout =
      let args = ns_audit_args net ip domain timeout in
      let (m, ms, e) = (run_dig_lem run args).0 in
      unfold audit_once in rw e (audit_messages-IsSound name (net.addr_string ip) m ms)

  -- The report of an audit, and the attempt that it is of.
  abbrev pub IsAudited : Runner → Runner → Bool → Bytes → Addr → Bytes → ℕ → Type 0
  IsAudited first second alive name ip domain timeout =
      (s : NsServer) × (t : NsServer) × (audit_once net first name ip domain timeout ≡ some t)
      × (audit_server net first second alive name ip domain timeout ≡ some s)
      × IsSound s
      × (((unanswered t.error && alive) ≡ false) × (s ≡ t)
          ⊎ ((unanswered t.error && alive) ≡ true)
            × (s.retries ≡ 1)
            × (audit_once net second name ip domain timeout ≡ some (record s { retries = 0 })))

  -- An audit ends with a report whatever dig prints, and never reads past the messages. The report
  -- is without an error exactly for an authoritative server, and says "no SOA" of no other. It is
  -- the second attempt's if the first was not answered and there was time, and else the first's.
  pub audit_server_lem :
      (first second : Runner) (alive : Bool) (name : Bytes) (ip : Addr) (domain : Bytes)
      (timeout : ℕ)
      → IsAudited first second alive name ip domain timeout
  audit_server_lem first second alive name ip domain timeout =
      let (t, et, st, nt) = audit_once-HasAudit first name ip domain timeout in
      let (u, eu, su, nu) = audit_once-HasAudit second name ip domain timeout in
      elim (Bool-cases (unanswered t.error && alive)) [
        | inl b ↦ (
          record u { retries = 1 },
          t,
          et,
          unfold audit_server in rw (et, eu) (rw b refl),
          su,
          inr (b, refl, eu ∙ ap some (ap (λ n. record u { retries = n }) nu)),
        )
        | inr b ↦ (t, t, et, unfold audit_server in rw (et, eu) (rw b refl), st, inl (b, refl))
      ]
