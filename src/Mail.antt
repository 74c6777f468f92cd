-- ===== src/Mail.antt =====
-- mail.go: the mail section of the report. DKIM keys and the MTA-STS policy are as their checks left
-- them.
pub mod Policy
pub mod Mx
use domaintest.Prelude.{ℕ, Bool, Option, List}
use domaintest.Mail.Policy.{Dmarc}
use domaintest.Text.{Bytes}
use domaintest.Mail.Mx.{MxCheck}
use domaintest.Spf.State.{SpfResult}

-- `DKIMKey` and `DKIMResult`
pub record DkimKey : Type 0 where
  pub selector : Bytes
  pub key_type : Bytes
  pub bits : ℕ
  pub error : Bytes

pub record DkimResult : Type 0 where
  pub wildcard : Bool
  pub revoked : List Bytes
  pub keys : List DkimKey
  pub dangling : List Bytes

-- `MTASTS`
pub record MtaSts : Type 0 where
  pub has_record : Bool
  pub mode : Bytes
  pub mx_covered : Bool
  pub error : Bytes

-- `MailReport`
pub record MailReport : Type 0 where
  pub dmarc : Dmarc
  pub spf : SpfResult
  pub mx : List MxCheck
  pub dkim : DkimResult
  pub mta_sts : Option MtaSts
  pub mta_sts_absent : Bool
  pub tls_rpt_absent : Bool
