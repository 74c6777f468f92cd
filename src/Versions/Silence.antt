-- ===== src/Versions/Silence.antt =====
-- Silence is not read as absence.
use domaintest.Prelude.{
  ◌==◌, is_none, any, all, ◌≡◌, refl, Bool, false, not, ◌&&◌, ◌||◌, Option, none, some, List, [],
  ◌∷◌, arith,
}
use domaintest.Findings.Web.{quic_supported}
use domaintest.Text.{contains, ◌=?◌, lit, Bytes, split, cut, trim_space, has_prefix}
use domaintest.Versions.{
  AddrProbe, http_versions_for, http11_verdict, answered_reasons, h3_advertised_in, http3_verdict,
  by_tls, after_handshake, offers_h3,
}
use domaintest.Web.{
  HttpResult, QuicResult, TlsResult, is_handshake_failed, is_true, is_refused, is_known_false,
}

-- A response was read.
abbrev pub was_answered : Option HttpResult → Bool
was_answered none = false
was_answered (some r) = not (r.status == 0)

-- The QUIC endpoint answered and refused; it did not answer in time; it spoke HTTP/3.
abbrev pub quic_refused : Option QuicResult → Bool
quic_refused none = false
quic_refused (some q) = not q.supported && contains q.reason answered_reasons

abbrev pub quic_timed_out : Option QuicResult → Bool
quic_timed_out none = false
quic_timed_out (some q) = not q.supported && q.reason =? lit "timeout"

-- The handshake ended without the alert that no protocol is shared.
abbrev pub shook_hands : Option TlsResult → Bool
shook_hands none = false
shook_hands (some t) = not t.no_alpn && not (is_handshake_failed t.chain)

-- An entry of an Alt-Svc header is for HTTP/3: its protocol is "h3" or begins with "h3-".
abbrev pub names_h3 : Bytes → Bool
names_h3 entry =
    let protocol = (cut (trim_space entry) b'=').0 in
    protocol =? lit "h3" || has_prefix (lit "h3-") protocol

-- The header of a response that was read has such an entry; and it has none.
abbrev pub lists_h3 : Option HttpResult → Bool
lists_h3 none = false
lists_h3 (some r) = not (r.status == 0) && any names_h3 (split r.alt_svc b',')

abbrev pub lists_no_h3 : Option HttpResult → Bool
lists_no_h3 none = false
lists_no_h3 (some r) = not (r.status == 0) && all (λ x. not (names_h3 x)) (split r.alt_svc b',')

all-not-any : (xs : List Bytes) → all (λ x. not (names_h3 x)) xs ≡ not (any names_h3 xs)
all-not-any [] = refl
all-not-any (x ∷ xs) = ground (arith, all-not-any xs)

lists_no_h3_lem : (r : Option HttpResult) → lists_no_h3 r ≡ (was_answered r && not (lists_h3 r))
lists_no_h3_lem none = refl
lists_no_h3_lem (some r) = ground (arith, all-not-any (split r.alt_svc b','))

-- HTTP/1.1 is said to be served exactly when 443 did not refuse, the handshake succeeded and a
-- response was read. HTTP/3 is said to be served exactly when the QUIC probe succeeded, and to be
-- absent exactly when its endpoint answered and refused, or did not answer while a response was
-- read whose Alt-Svc header has no entry for HTTP/3. It is said to be advertised exactly when a
-- response was read whose header has such an entry, and not to be when one was read whose header
-- has none; this is unknown exactly when no response was read.
pub http_versions_for_lem :
    (p : AddrProbe) (q : Option QuicResult)
    → (is_true (http_versions_for p q).http1_1
        ≡ (not (is_refused p.https) && (shook_hands p.tls && was_answered p.https_res)))
      × (is_true (http_versions_for p q).http3 ≡ quic_supported q)
      × (is_known_false (http_versions_for p q).http3
          ≡ (quic_refused q || (quic_timed_out q && lists_no_h3 p.https_res)))
      × (is_true (http_versions_for p q).h3_advertised ≡ lists_h3 p.https_res)
      × (is_known_false (http_versions_for p q).h3_advertised ≡ lists_no_h3 p.https_res)
      × (is_none (http_versions_for p q).h3_advertised ≡ not (was_answered p.https_res))
unfolding http_versions_for http11_verdict h3_advertised_in http3_verdict by_tls after_handshake
    offers_h3
http_versions_for_lem p q = ground (arith, lists_no_h3_lem p.https_res)
