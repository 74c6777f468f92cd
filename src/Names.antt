-- ===== src/Names.antt =====
-- names.go: the names that `dpdomain` normalises. That package is not in the repository, so its
-- two ways to normalise are the fields of a record.
use domaintest.Prelude.{Bool, []}
use domaintest.Text.{Bytes}

-- `dpdomain.Name`: `fqdn` is what `Name.FQDN()` returns, `is_ip` says `Kind == KindIP`.
pub record Name : Type 0 where
  pub ascii : Bytes
  pub fqdn : Bytes
  pub is_ip : Bool

-- A name, or the text of the error.
pub data Normalized : Type 0 where
  name : Name → Normalized
  invalid : Bytes → Normalized

-- `dpdomain.Normalize` with `Lenient`, and with `Lenient` and `AllowIP`.
pub record Dpdomain : Type 0 where
  pub lenient : Bytes → Normalized
  pub lenient_or_ip : Bytes → Normalized

module _ (dp : Dpdomain) where
  abbrev pub dns_name : Bytes → Normalized
  dns_name = dp.lenient

  abbrev pub host_or_ip : Bytes → Normalized
  host_or_ip = dp.lenient_or_ip

ascii_of : Normalized → Bytes
ascii_of (Normalized.name n) = n.ascii
ascii_of (Normalized.invalid e) = []

absolute_of : Normalized → Bytes
absolute_of (Normalized.name n) = n.fqdn
absolute_of (Normalized.invalid e) = []

unfoldable pub bare_name : Dpdomain → Bytes → Bytes
unfolding ascii_of
bare_name dp s = ascii_of (dns_name dp s)

unfoldable pub fqdn_of : Dpdomain → Bytes → Bytes
unfolding absolute_of
fqdn_of dp s = absolute_of (dns_name dp s)
