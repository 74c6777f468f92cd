-- ===== src/Report/Severities/ByMail.antt =====
-- The severities of the findings on mail and on the nameservers.
use domaintest.Prelude.{All, ℕ, ◌≡◌, refl, Bool, Option, none, some, List, [], ◌∷◌, arith}
use domaintest.Text.{Bytes}
use domaintest.Findings.Mail.{
  dmarc_problem_class, spf_problem_class, mx_problem_code, spf_findings, dmarc_findings,
  mx_findings, dkim_key_findings, mta_sts_findings, mail_absence_findings, mail_findings,
  spf_classes, class_in, dmarc_problems, dmarc_pct, mx_problems, dkim_key, dkim_keys, sts_findings,
  mx_problem, SpfClass,
}
use domaintest.Report.Severities.{AreFiled, append-AreFiled, each-AreFiled, severity_of}
use domaintest.Mail.{MailReport, DkimKey, MtaSts, DkimResult}
use domaintest.Mail.Mx.{MxCheck}
use domaintest.Mail.Policy.{Dmarc}
use domaintest.NsAudit.{NsServer}
use domaintest.Nameservers.{NsReport}
use domaintest.Glue.{GlueReport}
use domaintest.Findings.Count.{NsTally, tally_servers}
use domaintest.Findings.Servers.{
  server_warnings, name_findings, server_findings, glue_findings, ns_findings, silent_finding,
  diversity_findings, server_warning, lame_finding, all_names, one_domain, shared_prefixes,
  reserved_finding,
}
use domaintest.Addr.{NetIp}
use domaintest.Codes.{Severity}

dmarc_problem_class-IsFiled :
    (p : Bytes) → (dmarc_problem_class p).1 ≡ severity_of (dmarc_problem_class p).0
unfolding dmarc_problem_class severity_of
dmarc_problem_class-IsFiled p = ground arith

classes_lem : All (λ c. c.severity ≡ severity_of c.code) spf_classes
unfolding spf_classes severity_of
classes_lem = search

class_in-IsFiled :
    (cs : List SpfClass) (p : Bytes)
    → All (λ c. c.severity ≡ severity_of c.code) cs
    → (class_in cs p).1 ≡ severity_of (class_in cs p).0
unfolding class_in severity_of
class_in-IsFiled [] p h = ground arith
class_in-IsFiled (c ∷ cs) p h = ground (arith, class_in-IsFiled cs p h.1, h.0)

spf_problem_class-IsFiled :
    (p : Bytes) → (spf_problem_class p).1 ≡ severity_of (spf_problem_class p).0
unfolding spf_problem_class
spf_problem_class-IsFiled p = class_in-IsFiled spf_classes p classes_lem

mx_problem_code-fails : (p : Bytes) → Severity.fails ≡ severity_of (mx_problem_code p)
unfolding mx_problem_code severity_of
mx_problem_code-fails p = ground arith

spf_findings-AreFiled : (ps : List Bytes) → AreFiled (spf_findings ps)
unfolding spf_findings
spf_findings-AreFiled [] = tt
spf_findings-AreFiled (p ∷ ps) = (spf_problem_class-IsFiled p, spf_findings-AreFiled ps)

dmarc_problems-AreFiled : (ps : List Bytes) → AreFiled (dmarc_problems ps)
unfolding dmarc_problems
dmarc_problems-AreFiled [] = tt
dmarc_problems-AreFiled (p ∷ ps) = (dmarc_problem_class-IsFiled p, dmarc_problems-AreFiled ps)

dmarc_findings-AreFiled : (d : Dmarc) → AreFiled (dmarc_findings d)
unfolding dmarc_findings dmarc_pct severity_of
dmarc_findings-AreFiled d = ground (arith, dmarc_problems-AreFiled d.problems)

mx_problems-AreFiled : (c : MxCheck) (ps : List Bytes) → AreFiled (mx_problems c ps)
unfolding mx_problems mx_problem severity_of
mx_problems-AreFiled c [] = tt
mx_problems-AreFiled c (p ∷ ps) = ground (arith, mx_problems-AreFiled c ps, mx_problem_code-fails p)

mx_findings-AreFiled : (cs : List MxCheck) → AreFiled (mx_findings cs)
unfolding mx_findings
mx_findings-AreFiled [] = tt
mx_findings-AreFiled (c ∷ cs) =
    append-AreFiled _ _ (mx_problems-AreFiled c c.problems) (mx_findings-AreFiled cs)

dkim_key-AreFiled : (k : DkimKey) → AreFiled (dkim_key k)
unfolding dkim_key severity_of
dkim_key-AreFiled k = ground arith

dkim_keys-AreFiled : (ks : List DkimKey) → AreFiled (dkim_keys ks)
unfolding dkim_keys
dkim_keys-AreFiled [] = tt
dkim_keys-AreFiled (k ∷ ks) = append-AreFiled _ _ (dkim_key-AreFiled k) (dkim_keys-AreFiled ks)

dkim_key_findings-AreFiled : (d : DkimResult) → AreFiled (dkim_key_findings d)
unfolding dkim_key_findings severity_of
dkim_key_findings-AreFiled d =
    append-AreFiled _ _ (dkim_keys-AreFiled d.keys) (each-AreFiled _ (λ x. (refl, tt)) d.dangling)

mta_sts_findings-AreFiled : (m : Option MtaSts) → AreFiled (mta_sts_findings m)
unfolding mta_sts_findings sts_findings severity_of
mta_sts_findings-AreFiled m = ground arith

mail_absence_findings-AreFiled : (m : MailReport) → AreFiled (mail_absence_findings m)
unfolding mail_absence_findings severity_of
mail_absence_findings-AreFiled m = ground arith

pub mail_findings-AreFiled : (m : Option MailReport) (b : Bool) → AreFiled (mail_findings m b)
unfolding mail_findings severity_of
mail_findings-AreFiled none b = tt
mail_findings-AreFiled (some m) b =
    append-AreFiled _ _ (ground (arith, dmarc_findings-AreFiled m.dmarc)) (
      append-AreFiled _ _ (spf_findings-AreFiled m.spf.problems) (
        append-AreFiled _ _ (mx_findings-AreFiled m.mx) (
          append-AreFiled _ _ (ground arith) (
            append-AreFiled _ _ (dkim_key_findings-AreFiled m.dkim) (
              append-AreFiled _ _ (each-AreFiled _ (λ x. (refl, tt)) m.dkim.revoked) (
                append-AreFiled _ _ (mta_sts_findings-AreFiled m.mta_sts)
                  (mail_absence_findings-AreFiled m)))))))

server_warnings-AreFiled : (servers : List NsServer) → AreFiled (server_warnings servers)
unfolding server_warnings server_warning severity_of
server_warnings-AreFiled [] = tt
server_warnings-AreFiled (s ∷ rest) = ground (arith, server_warnings-AreFiled rest)

name_findings-AreFiled : (t : NsTally) → AreFiled (name_findings t)
unfolding name_findings silent_finding lame_finding reserved_finding severity_of
name_findings-AreFiled t = ground arith

all_names-AreFiled : (ts : List NsTally) → AreFiled (all_names ts)
unfolding all_names
all_names-AreFiled [] = tt
all_names-AreFiled (t ∷ ts) = append-AreFiled _ _ (name_findings-AreFiled t) (all_names-AreFiled ts)

server_findings-AreFiled : (servers : List NsServer) → AreFiled (server_findings servers)
unfolding server_findings
server_findings-AreFiled servers =
    append-AreFiled _ _ (server_warnings-AreFiled servers)
      (all_names-AreFiled (tally_servers servers))

module _ (net : NetIp) where
  one_domain-AreFiled : (count : ℕ) (ds : List Bytes) → AreFiled (one_domain net count ds)
  unfolding one_domain severity_of
  one_domain-AreFiled count ds = ground arith

  shared_prefixes-AreFiled : (p4 p6 : Option ℕ) (c : ℕ × ℕ) → AreFiled (shared_prefixes net p4 p6 c)
  unfolding shared_prefixes severity_of
  shared_prefixes-AreFiled p4 p6 c = ground arith

  glue_findings-AreFiled : (g : Option GlueReport) → AreFiled (glue_findings net g)
  unfolding glue_findings severity_of
  glue_findings-AreFiled none = tt
  glue_findings-AreFiled (some g) =
      append-AreFiled _ _ (each-AreFiled _ (λ x. (refl, tt)) g.missing)
        (each-AreFiled _ (λ x. (refl, tt)) g.mismatch)

  pub ns_findings-AreFiled : (n : Option NsReport) → AreFiled (ns_findings net n)
  unfolding ns_findings diversity_findings severity_of
  ns_findings-AreFiled none = tt
  ns_findings-AreFiled (some n) = append-AreFiled _ _ (ground arith) (
      append-AreFiled _ _ (each-AreFiled _ (λ x. (refl, tt)) n.ns_cname) (
        append-AreFiled _ _ (each-AreFiled _ (λ x. (refl, tt)) n.unresolvable) (
          append-AreFiled _ _ (each-AreFiled _ (λ x. (refl, tt)) n.unresolved) (
            append-AreFiled _ _ (ground arith) (
              append-AreFiled _ _ (server_findings-AreFiled n.servers) (
                append-AreFiled _ _ (ground arith) (
                  append-AreFiled _ _
                    (append-AreFiled _ _ (one_domain-AreFiled n.count n.ns_domains)
                      (shared_prefixes-AreFiled n.ipv4_prefixes_24 n.ipv6_prefixes_48 _))
                    (glue_findings-AreFiled n.glue))))))))
