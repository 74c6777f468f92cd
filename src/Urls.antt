-- ===== src/Urls.antt =====
-- net/url as the program reads it: the parts of a parsed URL, `url.Parse`, and `URL.Parse`, which
-- resolves a reference against a URL. The two functions are not in the repository.
use domaintest.Prelude.{Option}
use domaintest.Text.{Bytes}

-- `url.URL` through its accessors, and its text.
pub record Url : Type 0 where
  pub scheme : Bytes
  pub hostname : Bytes
  pub port : Bytes
  pub escaped_path : Bytes
  pub raw_query : Bytes
  pub text : Bytes

pub record UrlLibrary : Type 0 where
  pub parse : Bytes → Option Url
  pub resolve : Url → Bytes → Option Url
