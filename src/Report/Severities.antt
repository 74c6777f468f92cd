-- ===== src/Report/Severities.antt =====
-- The severity that a code has in every report.
use domaintest.Prelude.{All, All-append, ◌≡◌, List, [], ◌∷◌, ◌++◌}
use domaintest.Text.{Bytes}
use domaintest.Findings.Mail.{each}
use domaintest.Findings.{Finding}
pub mod ByMail
pub mod ByWeb
pub mod ByReport
use domaintest.Codes.{Code, Severity}

-- One severity for each code.
unfoldable pub severity_of : Code → Severity
severity_of Code.zone_unreachable = Severity.fails
severity_of Code.reserved_name = Severity.warns
severity_of Code.resolver_unreachable = Severity.fails
severity_of Code.domain_on_hold = Severity.fails
severity_of Code.domain_pending_deletion = Severity.warns
severity_of Code.apex_nxdomain = Severity.fails
severity_of Code.apex_empty = Severity.fails
severity_of Code.ns_absent = Severity.fails
severity_of Code.lookup_timeout = Severity.fails
severity_of Code.lookup_failed = Severity.fails
severity_of Code.spf_absent = Severity.warns
severity_of Code.apex_no_address = Severity.warns
severity_of Code.dnssec_bogus = Severity.fails
severity_of Code.resolver_servfail = Severity.fails
severity_of Code.dnssec_dnskey_no_ds = Severity.warns
severity_of Code.dnssec_unknown = Severity.warns
severity_of Code.delegation_mismatch = Severity.fails
severity_of Code.not_delegated = Severity.fails
severity_of Code.delegation_nodata = Severity.fails
severity_of Code.delegation_no_answer = Severity.fails
severity_of Code.delegation_lame = Severity.fails
severity_of Code.delegation_trace_failed = Severity.fails
severity_of Code.http_port80_partial = Severity.warns
severity_of Code.web_no_listener = Severity.warns
severity_of Code.https_unreachable = Severity.warns
severity_of Code.h3_advertised_unreachable = Severity.warns
severity_of Code.reserved_address = Severity.fails
severity_of Code.cert_mismatch_between_addresses = Severity.warns
severity_of (Code.cert_chain c) = Severity.fails
severity_of Code.cert_expiry_urgent = Severity.warns
severity_of Code.cert_sibling_uncovered = Severity.warns
severity_of Code.http_server_error = Severity.fails
severity_of Code.http_server_error_partial = Severity.warns
severity_of Code.http_client_error = Severity.warns
severity_of Code.http_cleartext = Severity.warns
severity_of Code.http_redirect_insecure = Severity.warns
severity_of Code.redirect_loop = Severity.fails
severity_of Code.redirect_downgrade = Severity.warns
severity_of Code.redirect_hop_limit = Severity.warns
severity_of Code.redirect_broken = Severity.warns
severity_of Code.redirect_ends_error = Severity.warns
severity_of Code.http_response_inconsistent = Severity.warns
severity_of Code.redirect_self = Severity.fails
severity_of Code.dkim_wildcard = Severity.warns
severity_of Code.dkim_selector_revoked = Severity.warns
severity_of Code.mx_target_unresolved = Severity.warns
severity_of Code.dmarc_unknown = Severity.warns
severity_of Code.dmarc_absent = Severity.warns
severity_of Code.dkim_key_invalid = Severity.warns
severity_of Code.dkim_key_too_short = Severity.fails
severity_of Code.spf_multiple = Severity.fails
severity_of Code.spf_lookup_limit = Severity.fails
severity_of Code.spf_void_limit = Severity.warns
severity_of Code.spf_no_all = Severity.warns
severity_of Code.spf_ptr_deprecated = Severity.warns
severity_of Code.spf_unknown_mechanism = Severity.fails
severity_of Code.spf_pass_all = Severity.fails
severity_of Code.spf_neutral_all = Severity.warns
severity_of Code.spf_include_invalid = Severity.warns
severity_of Code.spf_include_missing = Severity.warns
severity_of Code.spf_include_unchecked = Severity.warns
severity_of Code.spf_include_loop = Severity.fails
severity_of Code.spf_invalid = Severity.fails
severity_of Code.spf_problem = Severity.warns
severity_of Code.mx_null_mixed = Severity.fails
severity_of Code.mx_target_invalid = Severity.fails
severity_of Code.mx_target_ip_literal = Severity.fails
severity_of Code.mx_target_cname = Severity.fails
severity_of Code.mx_target_nxdomain = Severity.fails
severity_of Code.mx_target_no_address = Severity.fails
severity_of Code.mx_invalid = Severity.fails
severity_of Code.dmarc_multiple = Severity.fails
severity_of Code.dmarc_policy_missing = Severity.fails
severity_of Code.dmarc_policy_unknown = Severity.fails
severity_of Code.dmarc_subdomain_policy_unknown = Severity.warns
severity_of Code.dmarc_pct_invalid = Severity.warns
severity_of Code.dmarc_invalid = Severity.fails
severity_of Code.mta_sts_failed = Severity.warns
severity_of Code.mta_sts_mx_uncovered = Severity.warns
severity_of Code.mta_sts_enforce_failed = Severity.fails
severity_of Code.mta_sts_enforce_mx_uncovered = Severity.fails
severity_of Code.ns_count_low = Severity.fails
severity_of Code.ns_cname = Severity.fails
severity_of Code.ns_no_address = Severity.fails
severity_of Code.ns_unaudited = Severity.warns
severity_of Code.ns_none_reached = Severity.warns
severity_of Code.ns_reserved_address = Severity.fails
severity_of Code.ns_lame = Severity.fails
severity_of Code.ns_no_answer = Severity.fails
severity_of Code.ns_partial_answer = Severity.warns
severity_of Code.ns_no_tcp = Severity.warns
severity_of Code.ns_no_edns = Severity.warns
severity_of Code.ns_same_v4_24 = Severity.warns
severity_of Code.glue_missing = Severity.fails
severity_of Code.glue_differs = Severity.warns
severity_of Code.caa_issuer_denied = Severity.fails
severity_of Code.hsts_preload_header_missing = Severity.warns
severity_of Code.hsts_preload_header_weak = Severity.warns
severity_of Code.tlsa_mismatch = Severity.fails
severity_of _ = Severity.informs

abbrev pub IsFiled : Finding → Type 0
IsFiled x = x.severity ≡ severity_of x.code

abbrev pub AreFiled : List Finding → Type 0
AreFiled xs = All IsFiled xs

pub append-AreFiled : (xs ys : List Finding) → AreFiled xs → AreFiled ys → AreFiled (xs ++ ys)
append-AreFiled xs ys p q = All-append IsFiled xs ys p q

pub each-AreFiled :
    (f : Bytes → List Finding)
    → ((x : Bytes) → AreFiled (f x))
    → (xs : List Bytes) → AreFiled (each f xs)
unfolding each
each-AreFiled f p [] = tt
each-AreFiled f p (x ∷ xs) = append-AreFiled (f x) _ (p x) (each-AreFiled f p xs)
