-- ===== src/Net/Authority.antt =====
-- `_authority_re` and `parse_authority` of mitmproxy/net/http/url.py. The interpreter's limit on the
-- number of digits that `int` reads is left out.
use middle_man.Base.{
  ℕ, ◌+◌, ◌-◌, ◌*◌, Bool, true, false, not, ◌&&◌, Option, none, some, [], ◌∷◌, ltb, ◌==◌,
  if◌then◌else◌,
}
use middle_man.Http.Text.{Bytes, is_digit}
use middle_man.Net.Check.{Codec, at_end, without_last, is_valid_host, is_valid_port}

-- the text up to the first character that a test refuses, and what follows it
unfoldable pub span : (ℕ → Bool) → Bytes → Bytes × Bytes
span test [] = ([], [])
span test (c ∷ s) = let rest = span test s in if test c then (c ∷ rest.0, rest.1) else ([], c ∷ s)

-- A match: the host, and the digits of the port where there is one. The host of the alternative
-- `\[.+\]` ends at the last bracket behind which the rest of the pattern matches.
abbrev pub Match : Type 0
Match = Bytes × Option Bytes

abbrev pub host_onto : ℕ → Option Match → Option Match
host_onto c none = none
host_onto c (some found) = some (c ∷ found.0, found.1)

abbrev pub with_host : Bytes → Option (Option Bytes) → Option Match
with_host host none = none
with_host host (some port) = some (host, port)

abbrev pub first_match : Option Match → Option Match → Option Match
first_match none other = other
first_match (some found) other = some found

module _ (tail : Bytes → Option (Option Bytes)) where
  -- what `.+\]` takes behind its first character, and the rest of the pattern
  unfoldable pub closing : Bytes → Option Match
  closing [] = none
  closing (c ∷ s) =
      let later = host_onto c (closing s) in
      if c == b'\n'
      then none
      else first_match later (if c == b']' then with_host (b']' ∷ []) (tail s) else none)

  unfoldable pub bracketed : Bytes → Option Match
  unfolding closing
  bracketed [] = none
  bracketed (a ∷ []) = none
  bracketed (a ∷ c ∷ s) =
      if a == b'[' && not (c == b'\n') then host_onto a (host_onto c (closing s)) else none

  -- the alternative `[^...]+`
  abbrev pub plain : Bytes × Bytes → Option Match
  plain ([], rest) = none
  plain (c ∷ host, rest) = with_host (c ∷ host) (tail rest)

  -- both alternatives, the characters of a plain host given by a test
  unfoldable pub match_host : (ℕ → Bool) → Bytes → Option Match
  unfolding span bracketed
  match_host in_host text = first_match (plain (span in_host text)) (bracketed text)

-- `[1:-1]` of a text in brackets
abbrev pub strip_brackets : Bytes → Bytes
strip_brackets [] = []
strip_brackets (c ∷ s) =
    if c == b'[' then elim (without_last b']' s) [ none ↦ c ∷ s | some host ↦ host ] else c ∷ s

module _ (codec : Codec) where
  -- a digit of `\d` and its value
  unfoldable pub digit_value : ℕ → Option ℕ
  digit_value c =
      if is_digit c then some (c - b'0') else if ltb c 128 then none else codec.wide_digit c

  abbrev pub is_decimal : ℕ → Bool
  is_decimal c = elim (digit_value c) [ none ↦ false | some d ↦ true ]

  -- `int` of a text of digits
  unfoldable pub port_value : ℕ → Bytes → ℕ
  unfolding digit_value
  port_value n [] = n
  port_value n (c ∷ s) = port_value (n * 10 + elim (digit_value c) [ none ↦ 0 | some d ↦ d ]) s

  abbrev pub digits_to : (Bytes → Bool) → Bytes × Bytes → Option (Option Bytes)
  digits_to ends ([], rest) = none
  digits_to ends (c ∷ port, rest) = if ends rest then some (some (c ∷ port)) else none

  -- `(?::(?P<port>\d+))?` and what ends the pattern
  unfoldable pub port_tail : (Bytes → Bool) → Bytes → Option (Option Bytes)
  unfolding span digit_value
  port_tail ends [] = if ends [] then some none else none
  port_tail ends (c ∷ s) =
      if c == b':'
      then digits_to ends (span is_decimal s)
      else if ends (c ∷ s)
      then some none
      else none

  -- `_authority_re.match`
  unfoldable pub _authority_re : Bytes → Option Match
  unfolding match_host port_tail
  _authority_re text = match_host (port_tail at_end) (λ c. not (c == b':')) text

  abbrev pub checked_port : Bytes → Option Bytes → Option (Bytes × Option ℕ)
  checked_port host none = some (host, none)
  checked_port host (some digits) =
      let port = port_value 0 digits in if is_valid_port port then some (host, some port) else none

  -- what follows a match
  unfoldable pub checked : Bytes → Option Bytes → Option (Bytes × Option ℕ)
  unfolding without_last is_valid_host is_valid_port port_value
  checked host port =
      if is_valid_host codec (strip_brackets host)
      then checked_port (strip_brackets host) port
      else none

  -- `parse_authority` of a str, with `none` for the ValueError that it raises with `check`
  unfoldable pub parse_authority : Bytes → Option (Bytes × Option ℕ)
  unfolding _authority_re checked
  parse_authority authority = elim (_authority_re authority) [
    | none ↦ none
    | some found ↦ checked (found.0) (found.1)
  ]

  -- `m["host"].encode("utf-8").decode("idna")`
  unfoldable pub decode_host : Bytes → Option Bytes
  decode_host host = elim (codec.utf8_encode host) [
    | none ↦ none
    | some encoded ↦ codec.idna_decode encoded
  ]

  abbrev pub decode_match : Match → Option (Bytes × Option ℕ)
  decode_match (host, port) = elim (decode_host host) [
    | none ↦ none
    | some host ↦ checked host port
  ]

  -- `parse_authority` of bytes
  unfoldable pub parse_authority_bytes : Bytes → Option (Bytes × Option ℕ)
  unfolding _authority_re checked decode_host
  parse_authority_bytes authority = elim (codec.utf8_decode authority) [
    | none ↦ none
    | some text ↦ elim (_authority_re text) [ none ↦ none | some found ↦ decode_match found ]
  ]

  -- `parse_authority` without `check`, of a str and of bytes
  unfoldable pub parse_authority_unchecked : Bytes → Bytes × Option ℕ
  unfolding parse_authority
  parse_authority_unchecked authority = elim (parse_authority authority) [
    | none ↦ (authority, none)
    | some target ↦ target
  ]

  unfoldable pub parse_authority_bytes_unchecked : Bytes → Bytes × Option ℕ
  unfolding parse_authority_bytes
  parse_authority_bytes_unchecked authority = elim (parse_authority_bytes authority) [
    | none ↦ (codec.surrogateescape authority, none)
    | some target ↦ target
  ]
