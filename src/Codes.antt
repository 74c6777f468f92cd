-- ===== src/Codes.antt =====
-- report.go: the severities, and the codes that the findings are known by.
use domaintest.Prelude.{◌++◌}
use domaintest.Text.{Bytes, lit}
use domaintest.Web.{Chain, chain_text}

-- `SeverityFail`, `SeverityWarn` and `SeverityInfo`
pub data Severity : Type 0 where
  fails warns informs : Severity

-- The codes. `cert_chain` is the prefix `cert_` before a verdict on a chain.
pub data Code : Type 0 where
  run_deadline_reached zone_unreachable reserved_name resolver_unreachable : Code
  domain_on_hold domain_pending_deletion rdap_lookup_failed : Code
  apex_nxdomain apex_empty not_a_zone ns_absent : Code
  lookup_timeout lookup_failed mx_null mx_absent : Code
  spf_absent aaaa_absent www_nxdomain reserved_nxdomain : Code
  www_no_address apex_no_address : Code
  dnssec_bogus resolver_servfail dnssec_dnskey_no_ds dnssec_unknown : Code
  dnssec_unsigned : Code
  delegation_mismatch not_delegated delegation_nodata delegation_no_answer : Code
  delegation_lame delegation_trace_failed : Code
  http_port80_partial address_not_probed_reserved web_no_listener https_not_verified : Code
  https_unreachable http1_1_absent http2_absent http2_partial : Code
  http3_absent h3_advertised_unreachable quic_partial : Code
  reserved_address www_wildcard cert_mismatch_between_addresses cert_expiry_urgent : Code
  cert_expiry_soon cert_sibling_uncovered tls_legacy_versions tls13_absent : Code
  cert_chain : Chain → Code
  http_server_error http_server_error_partial http_probe_refused http_client_error : Code
  http_cleartext http_redirect_insecure http_cleartext_preloaded http_redirect_insecure_preloaded :
      Code
  http_redirect_temporary : Code
  redirect_loop redirect_downgrade redirect_hop_limit redirect_broken : Code
  redirect_ends_error http_response_inconsistent redirect_self hsts_short_max_age : Code
  dkim_wildcard dkim_selector_revoked mx_target_unresolved mta_sts_absent : Code
  tls_rpt_absent dmarc_unknown dmarc_absent dmarc_policy_none : Code
  dmarc_partial_pct dkim_key_invalid dkim_key_too_short dkim_key_weak : Code
  dkim_selector_dangling : Code
  spf_multiple spf_lookup_limit spf_void_limit spf_no_all : Code
  spf_ptr_deprecated spf_unknown_mechanism spf_pass_all spf_neutral_all : Code
  spf_txt_over_udp_limit spf_txt_near_udp_limit spf_include_txt_over_udp_limit spf_include_invalid :
      Code
  spf_include_missing spf_include_unchecked spf_include_loop spf_redundant_ip : Code
  spf_invalid spf_problem : Code
  mx_null_mixed mx_target_invalid mx_target_ip_literal mx_target_cname : Code
  mx_target_nxdomain mx_target_no_address mx_invalid : Code
  dmarc_multiple dmarc_policy_missing dmarc_policy_unknown dmarc_subdomain_policy_unknown : Code
  dmarc_pct_invalid dmarc_invalid : Code
  mta_sts_failed mta_sts_mx_uncovered mta_sts_enforce_failed mta_sts_enforce_mx_uncovered : Code
  ns_count_low ns_cname ns_no_address ns_unaudited : Code
  ns_none_reached soa_serial_differs ns_reserved_address ns_lame : Code
  ns_no_answer ns_partial_answer ns_no_tcp ns_no_edns : Code
  ns_single_domain ns_same_v4_24 ns_same_v6_48 glue_missing : Code
  glue_differs : Code
  caa_absent caa_issuer_denied hsts_preload_directive_unmet hsts_preload_unknown : Code
  hsts_preload_header_missing hsts_preload_header_weak tlsa_unsigned_zone tlsa_mismatch : Code

-- The text of a code in the report.
unfoldable pub code_text : Code → Bytes
code_text Code.run_deadline_reached = lit "run_deadline_reached"
code_text Code.zone_unreachable = lit "zone_unreachable"
code_text Code.reserved_name = lit "reserved_name"
code_text Code.resolver_unreachable = lit "resolver_unreachable"
code_text Code.domain_on_hold = lit "domain_on_hold"
code_text Code.domain_pending_deletion = lit "domain_pending_deletion"
code_text Code.rdap_lookup_failed = lit "rdap_lookup_failed"
code_text Code.apex_nxdomain = lit "apex_nxdomain"
code_text Code.apex_empty = lit "apex_empty"
code_text Code.not_a_zone = lit "not_a_zone"
code_text Code.ns_absent = lit "ns_absent"
code_text Code.lookup_timeout = lit "lookup_timeout"
code_text Code.lookup_failed = lit "lookup_failed"
code_text Code.mx_null = lit "mx_null"
code_text Code.mx_absent = lit "mx_absent"
code_text Code.spf_absent = lit "spf_absent"
code_text Code.aaaa_absent = lit "aaaa_absent"
code_text Code.www_nxdomain = lit "www_nxdomain"
code_text Code.reserved_nxdomain = lit "reserved_nxdomain"
code_text Code.www_no_address = lit "www_no_address"
code_text Code.apex_no_address = lit "apex_no_address"
code_text Code.dnssec_bogus = lit "dnssec_bogus"
code_text Code.resolver_servfail = lit "resolver_servfail"
code_text Code.dnssec_dnskey_no_ds = lit "dnssec_dnskey_no_ds"
code_text Code.dnssec_unknown = lit "dnssec_unknown"
code_text Code.dnssec_unsigned = lit "dnssec_unsigned"
code_text Code.delegation_mismatch = lit "delegation_mismatch"
code_text Code.not_delegated = lit "not_delegated"
code_text Code.delegation_nodata = lit "delegation_nodata"
code_text Code.delegation_no_answer = lit "delegation_no_answer"
code_text Code.delegation_lame = lit "delegation_lame"
code_text Code.delegation_trace_failed = lit "delegation_trace_failed"
code_text Code.http_port80_partial = lit "http_port80_partial"
code_text Code.address_not_probed_reserved = lit "address_not_probed_reserved"
code_text Code.web_no_listener = lit "web_no_listener"
code_text Code.https_not_verified = lit "https_not_verified"
code_text Code.https_unreachable = lit "https_unreachable"
code_text Code.http1_1_absent = lit "http1_1_absent"
code_text Code.http2_absent = lit "http2_absent"
code_text Code.http2_partial = lit "http2_partial"
code_text Code.http3_absent = lit "http3_absent"
code_text Code.h3_advertised_unreachable = lit "h3_advertised_unreachable"
code_text Code.quic_partial = lit "quic_partial"
code_text Code.reserved_address = lit "reserved_address"
code_text Code.www_wildcard = lit "www_wildcard"
code_text Code.cert_mismatch_between_addresses = lit "cert_mismatch_between_addresses"
code_text (Code.cert_chain c) = lit "cert_" ++ chain_text c
code_text Code.cert_expiry_urgent = lit "cert_expiry_urgent"
code_text Code.cert_expiry_soon = lit "cert_expiry_soon"
code_text Code.cert_sibling_uncovered = lit "cert_sibling_uncovered"
code_text Code.tls_legacy_versions = lit "tls_legacy_versions"
code_text Code.tls13_absent = lit "tls13_absent"
code_text Code.http_server_error = lit "http_server_error"
code_text Code.http_server_error_partial = lit "http_server_error_partial"
code_text Code.http_probe_refused = lit "http_probe_refused"
code_text Code.http_client_error = lit "http_client_error"
code_text Code.http_cleartext = lit "http_cleartext"
code_text Code.http_redirect_insecure = lit "http_redirect_insecure"
code_text Code.http_cleartext_preloaded = lit "http_cleartext_preloaded"
code_text Code.http_redirect_insecure_preloaded = lit "http_redirect_insecure_preloaded"
code_text Code.http_redirect_temporary = lit "http_redirect_temporary"
code_text Code.redirect_loop = lit "redirect_loop"
code_text Code.redirect_downgrade = lit "redirect_downgrade"
code_text Code.redirect_hop_limit = lit "redirect_hop_limit"
code_text Code.redirect_broken = lit "redirect_broken"
code_text Code.redirect_ends_error = lit "redirect_ends_error"
code_text Code.http_response_inconsistent = lit "http_response_inconsistent"
code_text Code.redirect_self = lit "redirect_self"
code_text Code.hsts_short_max_age = lit "hsts_short_max_age"
code_text Code.dkim_wildcard = lit "dkim_wildcard"
code_text Code.dkim_selector_revoked = lit "dkim_selector_revoked"
code_text Code.mx_target_unresolved = lit "mx_target_unresolved"
code_text Code.mta_sts_absent = lit "mta_sts_absent"
code_text Code.tls_rpt_absent = lit "tls_rpt_absent"
code_text Code.dmarc_unknown = lit "dmarc_unknown"
code_text Code.dmarc_absent = lit "dmarc_absent"
code_text Code.dmarc_policy_none = lit "dmarc_policy_none"
code_text Code.dmarc_partial_pct = lit "dmarc_partial_pct"
code_text Code.dkim_key_invalid = lit "dkim_key_invalid"
code_text Code.dkim_key_too_short = lit "dkim_key_too_short"
code_text Code.dkim_key_weak = lit "dkim_key_weak"
code_text Code.dkim_selector_dangling = lit "dkim_selector_dangling"
code_text Code.spf_multiple = lit "spf_multiple"
code_text Code.spf_lookup_limit = lit "spf_lookup_limit"
code_text Code.spf_void_limit = lit "spf_void_limit"
code_text Code.spf_no_all = lit "spf_no_all"
code_text Code.spf_ptr_deprecated = lit "spf_ptr_deprecated"
code_text Code.spf_unknown_mechanism = lit "spf_unknown_mechanism"
code_text Code.spf_pass_all = lit "spf_pass_all"
code_text Code.spf_neutral_all = lit "spf_neutral_all"
code_text Code.spf_txt_over_udp_limit = lit "spf_txt_over_udp_limit"
code_text Code.spf_txt_near_udp_limit = lit "spf_txt_near_udp_limit"
code_text Code.spf_include_txt_over_udp_limit = lit "spf_include_txt_over_udp_limit"
code_text Code.spf_include_invalid = lit "spf_include_invalid"
code_text Code.spf_include_missing = lit "spf_include_missing"
code_text Code.spf_include_unchecked = lit "spf_include_unchecked"
code_text Code.spf_include_loop = lit "spf_include_loop"
code_text Code.spf_redundant_ip = lit "spf_redundant_ip"
code_text Code.spf_invalid = lit "spf_invalid"
code_text Code.spf_problem = lit "spf_problem"
code_text Code.mx_null_mixed = lit "mx_null_mixed"
code_text Code.mx_target_invalid = lit "mx_target_invalid"
code_text Code.mx_target_ip_literal = lit "mx_target_ip_literal"
code_text Code.mx_target_cname = lit "mx_target_cname"
code_text Code.mx_target_nxdomain = lit "mx_target_nxdomain"
code_text Code.mx_target_no_address = lit "mx_target_no_address"
code_text Code.mx_invalid = lit "mx_invalid"
code_text Code.dmarc_multiple = lit "dmarc_multiple"
code_text Code.dmarc_policy_missing = lit "dmarc_policy_missing"
code_text Code.dmarc_policy_unknown = lit "dmarc_policy_unknown"
code_text Code.dmarc_subdomain_policy_unknown = lit "dmarc_subdomain_policy_unknown"
code_text Code.dmarc_pct_invalid = lit "dmarc_pct_invalid"
code_text Code.dmarc_invalid = lit "dmarc_invalid"
code_text Code.mta_sts_failed = lit "mta_sts_failed"
code_text Code.mta_sts_mx_uncovered = lit "mta_sts_mx_uncovered"
code_text Code.mta_sts_enforce_failed = lit "mta_sts_enforce_failed"
code_text Code.mta_sts_enforce_mx_uncovered = lit "mta_sts_enforce_mx_uncovered"
code_text Code.ns_count_low = lit "ns_count_low"
code_text Code.ns_cname = lit "ns_cname"
code_text Code.ns_no_address = lit "ns_no_address"
code_text Code.ns_unaudited = lit "ns_unaudited"
code_text Code.ns_none_reached = lit "ns_none_reached"
code_text Code.soa_serial_differs = lit "soa_serial_differs"
code_text Code.ns_reserved_address = lit "ns_reserved_address"
code_text Code.ns_lame = lit "ns_lame"
code_text Code.ns_no_answer = lit "ns_no_answer"
code_text Code.ns_partial_answer = lit "ns_partial_answer"
code_text Code.ns_no_tcp = lit "ns_no_tcp"
code_text Code.ns_no_edns = lit "ns_no_edns"
code_text Code.ns_single_domain = lit "ns_single_domain"
code_text Code.ns_same_v4_24 = lit "ns_same_v4_24"
code_text Code.ns_same_v6_48 = lit "ns_same_v6_48"
code_text Code.glue_missing = lit "glue_missing"
code_text Code.glue_differs = lit "glue_differs"
code_text Code.caa_absent = lit "caa_absent"
code_text Code.caa_issuer_denied = lit "caa_issuer_denied"
code_text Code.hsts_preload_directive_unmet = lit "hsts_preload_directive_unmet"
code_text Code.hsts_preload_unknown = lit "hsts_preload_unknown"
code_text Code.hsts_preload_header_missing = lit "hsts_preload_header_missing"
code_text Code.hsts_preload_header_weak = lit "hsts_preload_header_weak"
code_text Code.tlsa_unsigned_zone = lit "tlsa_unsigned_zone"
code_text Code.tlsa_mismatch = lit "tlsa_mismatch"
