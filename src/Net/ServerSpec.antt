-- ===== src/Net/ServerSpec.antt =====
-- mitmproxy/net/server_spec.py. A scheme with a character outside ASCII ends in the same ValueError
-- whether `\w` takes the character or not.
use mathlib.Core.Path.{subst}
use middle_man.Base.{
  ℕ, ◌≤◌, ◌≡◌, refl, ◌∙◌, ap, sym, Bool, true, false, not, ◌&&◌, ◌||◌, Option, none, some, List, [],
  ◌∷◌, ◌++◌, any, leb, ◌==◌, if◌then◌else◌, arith, inl, inr, Bool-cases,
}
use middle_man.Http.Text.{Bytes, codes, bytes_eq, bytes_eq_iff, is_digit, lower_byte}
use middle_man.Http.Assemble.{decimal}
use middle_man.Http.Assemble.Response.{is_filled}
use middle_man.Net.Check.{Codec, at_end, is_valid_host, is_valid_port}
use middle_man.Net.Authority.{span, Match, match_host, strip_brackets, port_value, port_tail}
use middle_man.Net.Hostport.{
  all_of, span-append, port_tail-decimal, match_host-plain, match_host-whole, decimal_port,
}

-- `\w`
unfoldable pub is_word : ℕ → Bool
unfolding lower_byte
is_word c = leb b'a' (lower_byte c) && leb (lower_byte c) b'z' || is_digit c || c == b'_'

-- `[^:/]`
abbrev pub in_host : ℕ → Bool
in_host c = not (c == b':') && not (c == b'/')

-- `/?$`
abbrev slash_end : Bytes → Bool
slash_end [] = true
slash_end (c ∷ s) = c == b'/' && at_end s || at_end (c ∷ s)

abbrev given : Bytes → Option Bytes → Bytes
given default none = default
given default (some scheme) = scheme

-- The scheme in front of `://`, where there is one, and the rest. A text with a scheme has no match in
-- which the scheme is left out, as no host has a colon with slashes behind it.
abbrev scheme_of : Bytes × Bytes → Bytes → Option Bytes × Bytes
scheme_of ([], rest) text = (none, text)
scheme_of (c ∷ word, a ∷ b ∷ d ∷ rest) text =
    if a == b':' && b == b'/' && d == b'/' then (some (c ∷ word), rest) else (none, text)
scheme_of _ text = (none, text)

-- the schemes, and the port that each has by default
abbrev pub schemes : List Bytes
schemes =
    codes "http"
    ∷ codes "https"
    ∷ codes "http3"
    ∷ codes "tls"
    ∷ codes "dtls"
    ∷ codes "tcp"
    ∷ codes "udp"
    ∷ codes "dns"
    ∷ codes "quic"
    ∷ []

unfoldable pub scheme_port : Bytes → Option ℕ
scheme_port scheme =
    if bytes_eq scheme (codes "http")
    then some 80
    else if bytes_eq scheme (codes "https")
        || bytes_eq scheme (codes "quic")
        || bytes_eq scheme (codes "http3")
    then some 443
    else if bytes_eq scheme (codes "dns")
    then some 53
    else none

module _ (codec : Codec) where
  -- what a match gives, with `none` for the ValueErrors
  unfoldable port_of : Bytes → Option Bytes → Option ℕ
  unfolding port_value scheme_port
  port_of scheme none = scheme_port scheme
  port_of scheme (some digits) = some (port_value codec 0 digits)

  unfoldable spec_of : Bytes → Bytes → Option ℕ → Option (Bytes × (Bytes × ℕ))
  unfolding is_valid_host is_valid_port
  spec_of scheme host none = none
  spec_of scheme host (some port) =
      if any (bytes_eq scheme) schemes && is_valid_host codec host && is_valid_port port
      then some (scheme, (host, port))
      else none

  -- `server_spec_re.match` behind the scheme
  unfoldable pub server_spec_re : Bytes → Option Match
  unfolding match_host port_tail
  server_spec_re text = match_host (port_tail codec slash_end) in_host text

  -- `parse`
  unfoldable pub parse : Bytes → Bytes → Option (Bytes × (Bytes × ℕ))
  unfolding span is_word server_spec_re port_of spec_of
  parse server_spec default_scheme =
      let split = scheme_of (span is_word server_spec) server_spec in
      let scheme = given default_scheme (split.0) in
      elim (server_spec_re (split.1)) [
        | none ↦ none
        | some found ↦ spec_of scheme (strip_brackets (found.0)) (port_of scheme (found.1))
      ]

any-test :
    (test : Bytes → Bool) (s : Bytes) (texts : List Bytes)
    → any (bytes_eq s) texts ≡ true
    → any (λ t. not (test t)) texts ≡ false
    → test s ≡ true
any-test test s [] h e = ground (arith, h)
any-test test s (t ∷ texts) h e = elim (Bool-cases (bytes_eq s t)) [
  | inl f ↦ subst (λ u. test u ≡ true) (sym ((bytes_eq_iff s t).0 f)) (ground (arith, e))
  | inr f ↦ any-test test s texts (ground (arith, h, f)) (ground (arith, e))
]

abbrev pub separator : Bytes
separator = codes "://"

scheme_of-split :
    (scheme rest : Bytes)
    → is_filled scheme ≡ true
    → all_of is_word scheme ≡ true
    → scheme_of (span is_word (scheme ++ (separator ++ rest))) (scheme ++ (separator ++ rest))
      ≡ (some scheme, rest)
unfolding is_word span
scheme_of-split scheme rest filled word =
    ap (λ run. scheme_of run (scheme ++ (separator ++ rest)))
      (span-append is_word scheme b':' (codes "//" ++ rest) word refl)
    ∙ by_scheme scheme filled
  where
    by_scheme :
        (word : Bytes)
        → is_filled word ≡ true
        → scheme_of (word, separator ++ rest) (scheme ++ (separator ++ rest)) ≡ (some word, rest)
    by_scheme [] h = ground (arith, h)
    by_scheme (c ∷ word) h = refl

-- what is read of a host behind a scheme, by the port
abbrev pub read_as : Bytes → Bytes → Option ℕ → Option (Bytes × (Bytes × ℕ))
read_as scheme host none = none
read_as scheme host (some port) = some (scheme, (host, port))

module _ (codec : Codec) where
  parse-match :
      (scheme host rest default : Bytes) (digits : Option Bytes)
      → any (bytes_eq scheme) schemes ≡ true
      → server_spec_re codec rest ≡ some (host, digits)
      → strip_brackets host ≡ host
      → parse codec (scheme ++ (separator ++ rest)) default
        ≡ spec_of codec scheme host (port_of codec scheme digits)
  unfolding parse is_word
  parse-match scheme host rest default digits known e bare =
      let filled = any-test is_filled scheme schemes known refl in
      let word = any-test (all_of is_word) scheme schemes known refl in
      ap {A = Option Bytes × Bytes}
        (λ split. elim (server_spec_re codec split.1) as (λ m. Option (Bytes × (Bytes × ℕ))) [
          | none ↦ none
          | some found ↦
              spec_of codec (given default split.0) (strip_brackets found.0)
                (port_of codec (given default split.0) found.1)
        ])
        (scheme_of-split scheme rest filled word)
      ∙ rw (e, bare) refl

  spec_of-port :
      (scheme host : Bytes) (port : ℕ)
      → any (bytes_eq scheme) schemes ≡ true
      → is_valid_host codec host ≡ true
      → port ≤ 65535
      → spec_of codec scheme host (some port) ≡ some (scheme, (host, port))
  unfolding spec_of is_valid_port
  spec_of-port scheme host port known valid h = rw (known, valid) (ground (arith, h))

  spec_of-scheme_port :
      (scheme host : Bytes)
      → any (bytes_eq scheme) schemes ≡ true
      → is_valid_host codec host ≡ true
      → spec_of codec scheme host (scheme_port scheme) ≡ read_as scheme host (scheme_port scheme)
  unfolding spec_of scheme_port is_valid_port
  spec_of-scheme_port scheme host known valid = ground (arith, known, valid)

  pub parse-read_as :
      (scheme host default : Bytes) (port : ℕ)
      → any (bytes_eq scheme) schemes ≡ true
      → is_filled host ≡ true
      → all_of in_host host ≡ true
      → strip_brackets host ≡ host
      → is_valid_host codec host ≡ true
      → port ≤ 65535
      → (parse codec (scheme ++ (separator ++ (host ++ b':' ∷ decimal port))) default
          ≡ some (scheme, (host, port)))
        × (parse codec (scheme ++ (separator ++ host)) default
            ≡ read_as scheme host (scheme_port scheme))
  unfolding server_spec_re port_of port_tail
  parse-read_as scheme host default port known filled plain bare valid h = (
    parse-match scheme host (host ++ b':' ∷ decimal port) default (some (decimal port)) known
          (match_host-plain (port_tail codec slash_end) in_host host b':' (decimal port)
            (some (decimal port)) filled plain refl (port_tail-decimal codec slash_end port refl))
          bare
        ∙ ap (λ p. spec_of codec scheme host (some p)) (decimal_port codec port)
        ∙ spec_of-port scheme host port known valid h,
    parse-match scheme host host default none known
          (match_host-whole (port_tail codec slash_end) in_host host none filled plain refl) bare
        ∙ spec_of-scheme_port scheme host known valid,
  )
