-- ===== src/Net/Hostport/Brackets.antt =====
-- Authorities of IPv6 addresses: in brackets they are read back, without brackets they are refused.
use middle_man.Base.{
  ℕ, ◌≤◌, ◌≡◌, refl, ◌∙◌, ap, sym, Bool, true, false, not, Option, none, some, [], ◌∷◌, ◌++◌, ltb,
  append_assoc, ◌==◌, if◌then◌else◌, arith, inl, inr, Bool-cases,
}
use middle_man.Http.Text.{Bytes, is_digit, all_digits}
use middle_man.Http.Assemble.{decimal}
use middle_man.Http.Assemble.Response.{is_filled, all_digits-digits_from}
use middle_man.Proxy.Messages.{hostport, default_port}
use middle_man.Net.Check.{Codec, at_end, is_valid_host, without_last}
use middle_man.Net.Authority.{
  span, first_match, closing, bracketed, plain, match_host, digit_value, port_tail, _authority_re,
  parse_authority, is_decimal, checked,
}
use middle_man.Net.Hostport.{
  all_of-append, all_of, not_colon, not_newline, span-append, port_tail-open, port_tail-decimal,
  match_host-plain, match_host-whole, shown_port, parse_authority-hostport_from,
}

abbrev not_bracket : ℕ → Bool
not_bracket c = not (c == b']')

-- the text in front of the first colon, and what follows it
split_colon :
    (s : Bytes)
    → all_of not_colon s ≡ false
    → (a : Bytes) × (b : Bytes) × (all_of not_colon a ≡ true) × (s ≡ a ++ b':' ∷ b)
split_colon [] h = ground (arith, h)
split_colon (c ∷ s) h = elim (Bool-cases (c == b':')) [
  | inl e ↦ ([], s, refl, ap (λ d. d ∷ s) (ground (arith, e)))
  | inr e ↦
      let rest = split_colon s (ground (arith, h, e)) in
      (c ∷ rest.0, rest.1, ground (arith, e, rest.2), ap (λ t. c ∷ t) rest.3)
]

without_last-append : (s : Bytes) (c : ℕ) → without_last c (s ++ c ∷ []) ≡ some s
unfolding without_last
without_last-append [] c = ground arith
without_last-append (a ∷ []) c = ground arith
without_last-append (a ∷ b ∷ s) c = rw (without_last-append (b ∷ s) c) refl

closing-not_bracket :
    (tail : Bytes → Option (Option Bytes)) (s : Bytes)
    → all_of not_bracket s ≡ true
    → closing tail s ≡ none
unfolding closing
closing-not_bracket tail [] h = refl
closing-not_bracket tail (c ∷ s) h =
    let rest = closing-not_bracket tail s (ground (arith, h)) in
    let here : (c == b']') ≡ false = ground (arith, h) in
    elim (Bool-cases (c == b'\n')) [ inl e ↦ rw e refl | inr e ↦ rw (e, rest, here) refl ]

closing-host :
    (tail : Bytes → Option (Option Bytes)) (host rest : Bytes) (port : Option Bytes)
    → all_of not_newline host ≡ true
    → closing tail rest ≡ none
    → tail rest ≡ some port
    → closing tail (host ++ b']' ∷ rest) ≡ some (host ++ b']' ∷ [], port)
unfolding closing
closing-host tail [] rest port h e f = rw (e, f) refl
closing-host tail (c ∷ host) rest port h e f =
    let more = closing-host tail host rest port (ground (arith, h)) e f in
    let here : (c == b'\n') ≡ false = ground (arith, h) in rw (here, more) refl

bracketed-host :
    (tail : Bytes → Option (Option Bytes)) (host rest : Bytes) (port : Option Bytes)
    → is_filled host ≡ true
    → all_of not_newline host ≡ true
    → closing tail rest ≡ none
    → tail rest ≡ some port
    → bracketed tail (b'[' ∷ host ++ b']' ∷ rest) ≡ some (b'[' ∷ host ++ b']' ∷ [], port)
unfolding bracketed
bracketed-host tail [] rest port filled h e f = ground (arith, filled)
bracketed-host tail (c ∷ host) rest port filled h e f =
    let here : (c == b'\n') ≡ false = ground (arith, h) in
    rw (here, closing-host tail host rest port (ground (arith, h)) e f) refl

unfoldable pub in_brackets : Bytes → Bytes
in_brackets host = b'[' ∷ host ++ b']' ∷ []

module _ (codec : Codec) where
  plain-refused :
      (tail : Bytes → Option (Option Bytes)) (host rest : Bytes)
      → tail rest ≡ none
      → plain tail (host, rest) ≡ none
  plain-refused tail [] rest e = refl
  plain-refused tail (c ∷ host) rest e = rw e refl

  bracket_not_decimal : (c : ℕ) → is_digit c ≡ false → ltb c 128 ≡ true → is_decimal codec c ≡ false
  unfolding digit_value
  bracket_not_decimal c e f = rw (is_decimal, e, f) refl

  -- a colon and, further on, a character that is no digit are not taken by the first alternative
  plain-colon :
      (a b : Bytes) (c : ℕ) (rest : Bytes)
      → all_of not_colon a ≡ true
      → is_decimal codec c ≡ false
      → (c == b'\n') ≡ false
      → plain (port_tail codec at_end) (span not_colon (a ++ b':' ∷ (b ++ c ∷ rest))) ≡ none
  plain-colon a b c rest h e f =
      ap (plain (port_tail codec at_end)) (span-append not_colon a b':' (b ++ c ∷ rest) h refl)
      ∙ plain-refused (port_tail codec at_end) a (b':' ∷ (b ++ c ∷ rest))
          (port_tail-open codec b c rest e f)

  match_host-brackets :
      (host rest : Bytes) (port : Option Bytes)
      → is_filled host ≡ true
      → all_of not_newline host ≡ true
      → closing (port_tail codec at_end) rest ≡ none
      → port_tail codec at_end rest ≡ some port
      → (all_of not_colon host ≡ true
          → match_host (port_tail codec at_end) not_colon (b'[' ∷ host ++ b']' ∷ rest)
            ≡ some (b'[' ∷ host ++ b']' ∷ [], port))
      → match_host (port_tail codec at_end) not_colon (b'[' ∷ host ++ b']' ∷ rest)
        ≡ some (b'[' ∷ host ++ b']' ∷ [], port)
  unfolding match_host
  match_host-brackets host rest port filled lines e f without =
      elim (Bool-cases (all_of not_colon host)) [
        | inl plain ↦ without plain
        | inr colon ↦
            let parts = split_colon host colon in
            let text = b'[' ∷ host ++ b']' ∷ rest in
            let spelled : text ≡ (b'[' ∷ parts.0) ++ b':' ∷ (parts.1 ++ b']' ∷ rest) =
              ap (λ s. b'[' ∷ s ++ b']' ∷ rest) parts.3 ∙ rw append_assoc refl in
            let refused : plain (port_tail codec at_end) (span not_colon text) ≡ none =
              ap (λ s. plain (port_tail codec at_end) (span not_colon s)) spelled
              ∙ plain-colon (b'[' ∷ parts.0) parts.1 b']' rest parts.2
                  (bracket_not_decimal b']' refl refl) refl in
            ap (λ m. first_match m (bracketed (port_tail codec at_end) text)) refused
            ∙ bracketed-host (port_tail codec at_end) host rest port filled lines e f
      ]

  -- An address in brackets, of any characters but line feeds, is read back without them.
  pub parse_authority-in_brackets :
      (scheme host : Bytes) (port : ℕ)
      → is_filled host ≡ true
      → all_of not_newline host ≡ true
      → is_valid_host codec host ≡ true
      → port ≤ 65535
      → parse_authority codec (hostport scheme (in_brackets host) port)
        ≡ some (host, shown_port scheme port)
  unfolding _authority_re port_tail in_brackets decimal
  parse_authority-in_brackets scheme host port filled lines valid h =
      let tail = port_tail codec at_end in
      let digits = (all_digits-digits_from port port [] (omega arith) refl).0 in
      let spelled : in_brackets host ++ b':' ∷ decimal port
          ≡ b'[' ∷ host ++ b']' ∷ b':' ∷ decimal port =
        rw append_assoc refl in
      let long : match_host tail not_colon (in_brackets host ++ b':' ∷ decimal port)
          ≡ some (in_brackets host, some (decimal port)) =
        ap (match_host tail not_colon) spelled
        ∙ match_host-brackets host (b':' ∷ decimal port) (some (decimal port)) filled lines
            (closing-not_bracket tail (b':' ∷ decimal port)
              (digits-not_bracket (decimal port) digits))
            (port_tail-decimal codec at_end port refl)
            (λ plain.
              ap (match_host tail not_colon) (sym spelled)
              ∙ match_host-plain tail not_colon (in_brackets host) b':' (decimal port)
                  (some (decimal port)) refl (all_of-append not_colon host (b']' ∷ []) plain refl)
                  refl (port_tail-decimal codec at_end port refl)) in
      let short : match_host tail not_colon (in_brackets host) ≡ some (in_brackets host, none) =
        match_host-brackets host [] none filled lines refl refl (λ plain.
          match_host-whole tail not_colon (in_brackets host) none refl
            (all_of-append not_colon host (b']' ∷ []) plain refl) refl) in
      parse_authority-hostport_from codec scheme (in_brackets host) host port long short
        (rw (without_last-append host b']') refl) valid h
    where
      digits-not_bracket : (s : Bytes) → all_digits s ≡ true → all_of not_bracket s ≡ true
      digits-not_bracket [] h = refl
      digits-not_bracket (c ∷ s) h = ground (arith, h, digits-not_bracket s (ground (arith, h)))

-- whether a text starts with a bracket
abbrev opens : Bytes → Bool
opens [] = false
opens (c ∷ s) = c == b'['

opens-append : (a s : Bytes) → opens a ≡ false → opens (a ++ b':' ∷ s) ≡ false
opens-append [] s h = refl
opens-append (c ∷ a) s h = h

bracketed-opens :
    (tail : Bytes → Option (Option Bytes)) (s : Bytes) → opens s ≡ false → bracketed tail s ≡ none
unfolding bracketed
bracketed-opens tail [] h = refl
bracketed-opens tail (a ∷ []) h = refl
bracketed-opens tail (a ∷ c ∷ s) h = rw h refl

module _ (codec : Codec) where
  parse_authority-colons :
      (a b c : Bytes)
      → all_of not_colon a ≡ true
      → opens a ≡ false
      → parse_authority codec (a ++ b':' ∷ (b ++ b':' ∷ c)) ≡ none
  unfolding parse_authority _authority_re match_host port_tail digit_value
  parse_authority-colons a b c h o =
      let text = a ++ b':' ∷ (b ++ b':' ∷ c) in
      let tail = port_tail codec at_end in
      let no_match : match_host tail not_colon text ≡ none =
        ap (λ m. first_match m (bracketed tail text)) (plain-colon codec a b b':' c h refl refl)
        ∙ bracketed-opens tail text (opens-append a (b ++ b':' ∷ c) o) in
      ap (λ m. elim m [ none ↦ none | some found ↦ checked codec (found.0) (found.1) ]) no_match

  -- The authority that `hostport` writes for a host with two colons or more and no bracket in front, as
  -- IPv6 addresses are, is one that `parse_authority` refuses, with any scheme and port.
  pub hostport-is_refused :
      (scheme a b c : Bytes) (port : ℕ)
      → all_of not_colon a ≡ true
      → opens a ≡ false
      → parse_authority codec (hostport scheme (a ++ b':' ∷ (b ++ b':' ∷ c)) port) ≡ none
  unfolding hostport
  hostport-is_refused scheme a b c port h o = by_default (default_port scheme)
    where
      host : Bytes
      host = a ++ b':' ∷ (b ++ b':' ∷ c)

      long : parse_authority codec ((a ++ b':' ∷ (b ++ b':' ∷ c)) ++ b':' ∷ decimal port) ≡ none
      long =
          ap (parse_authority codec) (rw (append_assoc, append_assoc) refl)
          ∙ parse_authority-colons a b (c ++ b':' ∷ decimal port) h o

      by_default :
          (default : Option ℕ)
          → parse_authority codec (elim default [
            | none ↦ (a ++ b':' ∷ (b ++ b':' ∷ c)) ++ b':' ∷ decimal port
            | some standard ↦
                if standard == port
                then a ++ b':' ∷ (b ++ b':' ∷ c)
                else (a ++ b':' ∷ (b ++ b':' ∷ c)) ++ b':' ∷ decimal port
          ])
            ≡ none
      by_default none = long
      by_default (some standard) = elim (Bool-cases (standard == port)) [
        | inl f ↦ rw f (parse_authority-colons a b c h o)
        | inr f ↦ rw f long
      ]
