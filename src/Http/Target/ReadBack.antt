-- ===== src/Http/Target/ReadBack.antt =====
-- The URL of a request of mitmproxy/http.py that is assigned and read.
use middle_man.Base.{
  ℕ, zero, suc, ◌≡◌, ◌⊎◌, true, Option, none, some, [], ◌∷◌, ◌++◌, ◌==◌, if◌then◌else◌,
}
use middle_man.Http.Text.{Bytes, codes, is_ascii}
use middle_man.Http.Assemble.{decimal}
use middle_man.Net.Check.{Codec, is_valid_host_bytes}
use middle_man.Http.Target.{Target}
use middle_man.Http.Target.Url.{Urllib, Url, or_default, with_slash}

-- the two schemes with a standard port
abbrev pub HasStandard : Bytes → ℕ → Type 0
HasStandard scheme standard =
    ((scheme ≡ codes "http") × (standard ≡ 80)) ⊎ ((scheme ≡ codes "https") × (standard ≡ 443))

-- how a port stands in a URL: not at all when it is missing, zero, or the standard one
abbrev pub port_text : ℕ → Option ℕ → Bytes
port_text standard none = []
port_text standard (some zero) = []
port_text standard (some (suc n)) = if standard == suc n then [] else b':' ∷ decimal (suc n)

-- a path with a slash in front
abbrev pub slashed : Bytes → Bytes
slashed [] = codes "/"
slashed (c ∷ path) = if c == b'/' then c ∷ path else codes "/" ++ c ∷ path

abbrev pub url_text : Bytes → Bytes → Bytes → Bytes → Bytes
url_text scheme host port path = scheme ++ (codes "://" ++ (host ++ port ++ path))

-- what urllib finds in a URL, and what the codec makes of its host
pub record Found (codec : Codec) (urllib : Urllib) (val scheme host path : Bytes) (port : Option ℕ)
    : Type 0 where
  pub first : ℕ
  pub name : Bytes
  pub host_bytes : Bytes
  pub found :
      urllib.urlparse val
      ≡ some (record {
        hostname = some (first ∷ name);
        encoded = some (record { scheme = scheme; port = some port; full_path = path });
      })
  pub encoded : codec.idna_encode (first ∷ name) ≡ some host_bytes
  pub valid : is_valid_host_bytes codec host_bytes ≡ true
  pub decoded : codec.idna_decode host_bytes ≡ some host
  pub ascii : is_ascii path ≡ true

module _ (codec : Codec) (always_bytes : Bytes → Option Bytes) (urllib : Urllib) where
  parts_of : Bytes → Bytes → Bytes → Option ℕ → Url
  parts_of scheme host_bytes path port = record {
    scheme = scheme;
    host = host_bytes;
    port = or_default scheme port;
    path = with_slash path;
  }
