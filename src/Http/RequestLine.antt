-- ===== src/Http/RequestLine.antt =====
-- `_read_request_line`, `read_request_head` and `read_response_head` of
-- mitmproxy/net/http/http1/read.py, over `url.parse` of Target/Url.
pub mod Words
pub mod RoundTrip
mod Tests
use middle_man.Base.{
  ℕ, zero, suc, Bool, true, false, not, ◌&&◌, ◌||◌, Option, none, some, List, [], ◌∷◌, ◌++◌, ◌==◌,
  if◌then◌else◌,
}
use middle_man.Http.Text.{Bytes, codes, bytes_eq}
use middle_man.Http.Headers.{Fields}
use middle_man.Http.Read.{_read_headers}
use middle_man.Http.Assemble.{take_word, skip_blanks, starts_with, is_version, _read_response_line}
use middle_man.Net.Check.{Codec}
use middle_man.Http.Target.Url.{Urllib, parse_bytes}
use middle_man.Net.Authority.{span, parse_authority_bytes}
use middle_man.Proxy.Messages.{default_port}

pub record RequestLine : Type 0 where
  pub host : Bytes
  pub port : ℕ
  pub method : Bytes
  pub scheme : Bytes
  pub authority : Bytes
  pub path : Bytes
  pub http_version : Bytes

abbrev pub three : Bytes → Bytes → Bytes → Bytes → Option (Bytes × (Bytes × Bytes))
three (a ∷ method) (b ∷ target) (c ∷ version) [] = some (a ∷ method, (b ∷ target, c ∷ version))
three _ _ _ _ = none

-- `line.split()` into exactly three words
unfoldable pub split_words : Bytes → Option (Bytes × (Bytes × Bytes))
unfolding take_word skip_blanks
split_words line =
    let first = take_word (skip_blanks line) in
    let second = take_word (skip_blanks (first.1)) in
    let third = take_word (skip_blanks (second.1)) in
    three (first.0) (second.0) (third.0) (skip_blanks (third.1))

-- `target.split(b"://", maxsplit=1)` into two parts
unfoldable pub split_scheme : Bytes → Option (Bytes × Bytes)
split_scheme [] = none
split_scheme (c ∷ s) =
    let rest = split_scheme s in
    if starts_with (codes "://") (c ∷ s)
    then some ([], behind_two s)
    else elim rest [ none ↦ none | some parts ↦ some (c ∷ parts.0, parts.1) ]
  where
    behind_two : Bytes → Bytes
    behind_two (a ∷ b ∷ s) = s
    behind_two s = []

abbrev pub behind_slash : Bytes → Bytes
behind_slash [] = []
behind_slash (c ∷ s) = s

-- `rest.partition(b"/")`
unfoldable pub split_path : Bytes → Bytes × Bytes
unfolding span
split_path rest = let run = span (λ c. not (c == b'/')) rest in (run.0, behind_slash (run.1))

abbrev pub is_origin : Bytes → Bool
is_origin target = bytes_eq target (codes "*") || starts_with (codes "/") target

-- a port that is true
abbrev pub true_port : Option ℕ → Option ℕ
true_port none = none
true_port (some zero) = none
true_port (some (suc n)) = some (suc n)

-- `port or default`
abbrev pub port_or : Option ℕ → Option ℕ → Option ℕ
port_or none default = default
port_or (some zero) default = default
port_or (some (suc n)) default = some (suc n)

-- the host and the port of an authority that must have a port, or has one by default
abbrev pub with_default : Option ℕ → Option (Bytes × Option ℕ) → Option (Bytes × ℕ)
with_default default none = none
with_default default (some (host, port)) = elim (true_port (port_or port default)) [
  | none ↦ none
  | some port ↦ some (host, port)
]

-- the attributes that a target gives: host, port, scheme, authority and path
abbrev pub Parts : Type 0
Parts = (Bytes × ℕ) × (Bytes × (Bytes × Bytes))

abbrev pub request_of : Bytes → Bytes → Parts → RequestLine
request_of method http_version parts = record {
  host = parts.0.0;
  port = parts.0.1;
  method = method;
  scheme = parts.1.0;
  authority = parts.1.1.0;
  path = parts.1.1.1;
  http_version = http_version;
}

abbrev pub request_line : Bytes → Bytes → Option Parts → Option RequestLine
request_line method http_version none = none
request_line method http_version (some parts) = some (request_of method http_version parts)

module _ (codec : Codec) (urllib : Urllib) where
  -- whether `url.parse` returns
  unfoldable pub url_parses : Bytes → Bool
  unfolding parse_bytes
  url_parses target = elim (parse_bytes codec urllib target) [ none ↦ false | some parts ↦ true ]

  unfoldable pub read_absolute : Bytes → Bytes → Bytes × Bytes → Option Parts
  unfolding parse_authority_bytes default_port url_parses
  read_absolute target scheme (authority, path) =
      elim (with_default (default_port scheme) (parse_authority_bytes codec authority)) [
        | none ↦ none
        | some place ↦
            if url_parses target then some (place, (scheme, (authority, b'/' ∷ path))) else none
      ]

  unfoldable pub read_connect : Bytes → Option Parts
  unfolding parse_authority_bytes
  read_connect authority = elim (with_default none (parse_authority_bytes codec authority)) [
    | none ↦ none
    | some place ↦ some (place, ([], (authority, [])))
  ]

  unfoldable pub read_target : Bytes → Bytes → Option Parts
  unfolding read_absolute read_connect split_scheme split_path
  read_target method target =
      if is_origin target
      then some (([], 0), ([], ([], target)))
      else if bytes_eq method (codes "CONNECT")
      then read_connect target
      else elim (split_scheme target) [
        | none ↦ none
        | some parts ↦ read_absolute target (parts.0) (split_path (parts.1))
      ]

  -- `_read_request_line`, with `none` for the ValueError
  unfoldable pub _read_request_line : Bytes → Option RequestLine
  unfolding split_words read_target is_version
  _read_request_line line = elim (split_words line) [
    | none ↦ none
    | some (method, (target, http_version)) ↦
        if is_version http_version
        then request_line method http_version (read_target method target)
        else none
  ]

  -- `read_request_head`, with `none` for its ValueErrors and the IndexError of no lines
  unfoldable pub read_request_head : List Bytes → Option (RequestLine × Fields)
  unfolding _read_request_line _read_headers
  read_request_head [] = none
  read_request_head (line ∷ lines) = elim (_read_request_line line) [
    | none ↦ none
    | some request ↦ elim (_read_headers lines) [
      | none ↦ none
      | some headers ↦ some (request, headers)
    ]
  ]

-- `read_response_head`
unfoldable pub read_response_head : List Bytes → Option ((Bytes × ((Bool × ℕ) × Bytes)) × Fields)
unfolding _read_response_line _read_headers
read_response_head [] = none
read_response_head (line ∷ lines) = elim (_read_response_line line) [
  | none ↦ none
  | some response ↦ elim (_read_headers lines) [
    | none ↦ none
    | some headers ↦ some (response, headers)
  ]
]
