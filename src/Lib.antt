-- ===== src/Lib.antt =====
-- domaintest probes a domain from outside (DNS, delegation, DNSSEC, nameservers, mail, web) and
-- reports what it finds. This library models the part of it that judges: functions from answers to
-- verdicts. What talks to the network is a parameter of the definitions that use it.
--
-- The parts, and the files of the repository that they are translated from:
--   Prelude        Boolean tests, lists and integers over the native numbers.
--   Text           Go strings as lists of bytes, and the functions of `strings` and `strconv`.
--   Names          names.go. A name is normalised by `dpdomain`, a record of functions.
--   Addr           addr.go and the part of `net/netip` in use; `ipnorm.Reserved` is a field.
--   Records        records.go: `Lookup`, `RR`; Records.Parse: `parseRR`, `txtStrings`.
--   Dnssec         dnssec.go: `classifyDNSSEC`, `classifyByTrust`.
--   Wildcard       wildcard.go: `assessWildcard`; report.go: `sameAddressSet`.
--   Trace          trace.go: `parseTrace`, `compareDelegation`, `traceDelegation`.
--   Caa            caa.go: `caaPermits`, `caaVerdict`, `assessCAA`.
--   Tlsa           tlsa.go: `parseTLSA`, `matchTLSA`.
--   Dig            dig.go: `parseDigYAML`, `runDig`.
--   NsAudit        nsaudit.go: `auditServer`, `auditAll`, `serialsConsistent`.
--   Glue           nsaudit.go: `checkGlue`, `isReferral`, `inBailiwick`.
--   Spf            mail.go: `evaluateSPF`, `walk`, `descend`, `redundantIPs`.
--   Zone           run.go: `detectNotAZone`, `classifyZone`; reserved.go; publicsuffix.go.
--   Mail           mail.go: `parseDMARC` (Mail.Policy), `checkMX` (Mail.Mx), `MailReport`.
--   Nameservers    nsaudit.go: `NSReport`, `nsNames`, `resolveNS`, `prefixDiversity`.
--   Web            what the probes in httpprobe.go, tlsprobe.go, quic.go and tcp.go hand over.
--   Versions       httpversions.go: `http11Verdict`, `http3Verdict`, `h3Advertised`.
--   Urls           the parts of a URL, and the two functions of net/url in use, as a parameter.
--   Codes          report.go: the severities and the codes of the findings.
--   Findings       report.go: `findings`; a child for the rules of each section of the report.
--   WebConsistency webconsistency.go: the answers of one run to each URL, compared.
--   Report         report.go: `Report`, the rules on the zone, `buildFindings`; rdap.go:
--                  `matchedStatuses`; preloadlist.go: `headerRequired`.
--   Tests          runs at concrete inputs, and each theorem at one.
-- The checks do not share state: each reads lookups that were made before it, or runs dig. The trace
-- and the audit run dig through a `Runner`, a function from its arguments to its output; the audit
-- reads the output by Dig, Dig reads records by Records.Parse, and the verdicts on DNSSEC, CAA and
-- wildcards read the lookups of Records. Report.Build puts the sections together: it reads the
-- results of all the checks and makes the findings, the errors, the warnings and `ok` of them.
--
-- How it is modelled. A record of the source is a record, an enumeration a data type, a Go `int` an
-- integer (`Prelude.Int`), a map of lookups a list of pairs, in any order, and the results of tasks
-- that run in parallel are a list in the order in which they finished. A loop is structural recursion
-- over its list or its text. Only the walk over SPF includes takes fuel: `descend` ends on a path of
-- more than 20 domains and each call makes the path longer, so that 22 is enough. Where the source
-- would index an empty list the model gives `none`.
--
-- A method of `findings` is the list of the findings that it adds, in their order, and
-- `buildFindings` collects the list of all of them with `add`. The text of a finding is the parts of
-- its format, put together by `concat`.
--
-- Not modelled: the network itself, JSON, the probes of HTTP, TLS and QUIC, the fetching of RDAP and
-- of the preload list, the keys of DKIM, the policy of MTA-STS, and the command line; hashes, name
-- normalisation, the address parser, the judgement on reserved addresses, the parser of URLs, the
-- quotes of `%q` and the regular expression of the ";; Received" line, which are parameters.
-- Case mapping is that of ASCII.
pub mod Prelude
pub mod Text
pub mod Names
pub mod Addr
pub mod Records
pub mod Dnssec
pub mod Wildcard
pub mod Trace
pub mod Caa
pub mod Tlsa
pub mod Dig
pub mod NsAudit
pub mod Spf
pub mod Zone
pub mod Glue
pub mod Web
pub mod Mail
pub mod Nameservers
pub mod Versions
pub mod Codes
pub mod Urls
pub mod Findings
pub mod WebConsistency
pub mod Report
pub mod Tests
