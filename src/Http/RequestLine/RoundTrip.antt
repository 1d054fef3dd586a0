-- ===== src/Http/RequestLine/RoundTrip.antt =====
-- A request line that `_assemble_request_line` writes is read back.
use middle_man.Base.{ℕ, suc, ◌≡◌, Bool, true, false, not, some, [], ◌∷◌, ◌==◌, if◌then◌else◌}
use middle_man.Http.Text.{Bytes, codes, bytes_eq, upper}
use middle_man.Http.Assemble.{RequestData, request_target}
use middle_man.Http.Assemble.Response.{is_filled}
use middle_man.Net.Check.{Codec}
use middle_man.Net.Authority.{parse_authority_bytes}
use middle_man.Net.Hostport.{all_of, not_colon}
use middle_man.Proxy.Messages.{default_port}
use middle_man.Http.Target.Url.{Urllib}
use middle_man.Http.RequestLine.{url_parses, is_origin, with_default, Parts}

abbrev not_slash : ℕ → Bool
not_slash c = not (c == b'/')

-- whether `_assemble_request_line` writes the authority alone
abbrev pub is_connect : RequestData → Bool
is_connect r = bytes_eq (upper r.method) (codes "CONNECT")

abbrev pub target_of : RequestData → Bytes
target_of r = if is_connect r then r.authority else request_target r

module _ (codec : Codec) (urllib : Urllib) where
  -- The requests that are written so that they can be read, with what is read: a path alone, the
  -- authority of a CONNECT request with its port, and a URL whose host has a port or gets one.
  pub data IsWritten (r : RequestData) : Parts → Type 0 where
    origin :
        is_connect r ≡ false
        → r.authority ≡ []
        → is_origin (r.path) ≡ true
        → IsWritten r (([], 0), ([], ([], r.path)))
    connect :
        (host : Bytes) (port : ℕ)
        → r.method ≡ codes "CONNECT"
        → is_origin (r.authority) ≡ false
        → parse_authority_bytes codec (r.authority) ≡ some (host, some (suc port))
        → IsWritten r ((host, suc port), ([], (r.authority, [])))
    absolute :
        (place : Bytes × ℕ) (path : Bytes)
        → is_connect r ≡ false
        → is_filled (r.authority) ≡ true
        → all_of not_slash (r.authority) ≡ true
        → all_of not_colon (r.scheme) ≡ true
        → r.path ≡ b'/' ∷ path
        → is_origin (target_of r) ≡ false
        → with_default (default_port (r.scheme)) (parse_authority_bytes codec (r.authority))
          ≡ some place
        → url_parses codec urllib (target_of r) ≡ true
        → IsWritten r (place, (r.scheme, (r.authority, r.path)))
