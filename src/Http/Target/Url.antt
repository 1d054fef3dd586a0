-- ===== src/Http/Target/Url.antt =====
-- The URL of a request in mitmproxy/http.py, with `parse` and `unparse` of mitmproxy/net/http/url.py.
-- What urllib makes of a URL is the record `Urllib`.
use middle_man.Base.{ℕ, zero, suc, Bool, Option, none, some, [], ◌∷◌, ◌++◌, ◌==◌, if◌then◌else◌}
use middle_man.Http.Text.{is_ascii, Bytes, codes, bytes_eq, upper}
use middle_man.Http.Assemble.{decimal}
use middle_man.Net.Check.{Codec, is_valid_host_bytes}
use middle_man.Net.Authority.{parse_authority_unchecked}
use middle_man.Proxy.Messages.{hostport, default_port}
use middle_man.Http.Target.{
  Target, Set, set, fail, and_then, scheme_text, authority_text, set_host_bytes, set_port,
  host_header,
}

-- a parsed URL as ASCII bytes: its scheme, its port (with the ValueError of a bad one as `none`), and
-- what `urlunparse` makes of its path, parameters, query and fragment
pub record Encoded : Type 0 where
  pub scheme : Bytes
  pub port : Option (Option ℕ)
  pub full_path : Bytes

-- the host name of a parsed URL, and its bytes when it is ASCII
pub record Parsed : Type 0 where
  pub hostname : Option Bytes
  pub encoded : Option Encoded

-- the parsing of a text, and a text with its query quoted, with `none` for a ValueError
pub record Urllib : Type 0 where
  pub urlparse : Bytes → Option Parsed
  pub quote_query : Bytes → Option Bytes

-- `if not port`
abbrev pub or_default : Bytes → Option ℕ → ℕ
or_default scheme none = if bytes_eq scheme (codes "https") then 443 else 80
or_default scheme (some zero) = if bytes_eq scheme (codes "https") then 443 else 80
or_default scheme (some (suc port)) = suc port

-- a path starts with a slash
abbrev pub with_slash : Bytes → Bytes
with_slash [] = b'/' ∷ []
with_slash (c ∷ path) = if c == b'/' then c ∷ path else b'/' ∷ c ∷ path

-- what `parse` returns
pub record Url : Type 0 where
  pub scheme : Bytes
  pub host : Bytes
  pub port : ℕ
  pub path : Bytes

-- `unparse`
unfoldable pub unparse : Bytes → Bytes → ℕ → Bytes → Bytes
unfolding hostport
unparse scheme host port path =
    let rest = if bytes_eq path (codes "*") then [] else path in
    scheme ++ (codes "://" ++ (hostport scheme host port ++ rest))

module _ (codec : Codec) (urllib : Urllib) where
  abbrev pub checked_url : Bytes → Encoded → Option ℕ → Option Url
  checked_url host encoded port =
      if is_valid_host_bytes codec host
      then some (record {
        scheme = encoded.scheme;
        host = host;
        port = or_default (encoded.scheme) port;
        path = with_slash (encoded.full_path);
      })
      else none

  -- `parse` behind the test for a host name
  abbrev pub parse_named : Bytes → Option Encoded → Option Url
  parse_named hostname encoded = elim (codec.idna_encode hostname) [
    | none ↦ none
    | some host ↦ elim encoded [
      | none ↦ none
      | some e ↦ elim (e.port) [ none ↦ none | some port ↦ checked_url host e port ]
    ]
  ]

  -- `parse` of a text, with `none` for the ValueErrors
  unfoldable pub parse : Bytes → Option Url
  unfolding is_valid_host_bytes
  parse url = elim (urllib.urlparse url) [
    | none ↦ none
    | some parsed ↦ elim (parsed.hostname) [
      | none ↦ none
      | some [] ↦ none
      | some (c ∷ name) ↦ parse_named (c ∷ name) (parsed.encoded)
    ]
  ]

  -- `parse` of bytes
  unfoldable pub parse_bytes : Bytes → Option Url
  unfolding is_ascii parse
  parse_bytes url = elim (codec.utf8_decode url) [
    | none ↦ none
    | some text ↦
        if is_ascii text
        then parse text
        else elim (urllib.quote_query text) [ none ↦ none | some quoted ↦ parse quoted ]
  ]

module _ (codec : Codec) (always_bytes : Bytes → Option Bytes) where
  -- `first_line_format`: whether it is that of CONNECT
  abbrev pub is_connect : Target → Bool
  is_connect target = bytes_eq (upper (codec.surrogateescape (target.method))) (codes "CONNECT")

  -- the getter of `url`
  unfoldable pub url : Target → Bytes
  unfolding unparse decimal upper
  url target =
      if is_connect target
      then target.host ++ b':' ∷ decimal (target.port)
      else unparse (scheme_text codec always_bytes target) (target.host) (target.port)
          (codec.surrogateescape (target.path))

  -- the assignments of the setter of `url`, in their order
  abbrev pub assign_url : Url → Target → Set
  assign_url parts target =
      and_then
        (set_host_bytes codec always_bytes (parts.host) (record target { scheme = parts.scheme }))
        (λ t.
          and_then (set_port codec always_bytes (parts.port) t)
            (λ u. set (record u { path = parts.path })))

  unfoldable pub set_url : Urllib → Bytes → Target → Set
  unfolding parse set_host_bytes set_port
  set_url urllib val target = elim (parse codec urllib val) [
    | none ↦ fail target
    | some parts ↦ assign_url parts target
  ]

  unfoldable pub pretty_host : Target → Bytes
  unfolding host_header parse_authority_unchecked
  pretty_host target = elim (host_header codec always_bytes target) [
    | none ↦ target.host
    | some [] ↦ target.host
    | some (c ∷ s) ↦ (parse_authority_unchecked codec (c ∷ s)).0
  ]

  -- `pretty_port or default_port(scheme) or 443`
  abbrev pub or_port : Option ℕ → Option ℕ → ℕ
  or_port none none = 443
  or_port none (some default) = default
  or_port (some zero) none = 443
  or_port (some zero) (some default) = default
  or_port (some (suc port)) default = suc port

  abbrev pub pretty_parts : Target → Bytes × Option ℕ → Bytes
  pretty_parts target (host, port) =
      unparse (scheme_text codec always_bytes target) host
        (or_port port (default_port (scheme_text codec always_bytes target)))
        (codec.surrogateescape (target.path))

  unfoldable pub pretty_url : Target → Bytes
  unfolding upper authority_text host_header parse_authority_unchecked url unparse default_port
  pretty_url target =
      if is_connect target
      then authority_text codec always_bytes target
      else elim (host_header codec always_bytes target) [
        | none ↦ url target
        | some [] ↦ url target
        | some (c ∷ s) ↦ pretty_parts target (parse_authority_unchecked codec (c ∷ s))
      ]
