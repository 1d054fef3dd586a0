-- ===== src/Net/Hostport.antt =====
-- An authority that `hostport` writes and `parse_authority` reads back.
pub mod Brackets
use mathlib.Core.Path.{subst}
use middle_man.Base.{
  ℕ, ◌+◌, ◌-◌, ◌*◌, ◌≤◌, ◌≡◌, refl, ◌∙◌, ap, sym, Bool, true, false, not, ◌&&◌, Option, none, some,
  [], ◌∷◌, ◌++◌, append_assoc, append-nil, ltb, leb, ◌==◌, if◌then◌else◌, arith, inl, inr,
  Bool-cases,
}
use middle_man.Http.Text.{Bytes, is_digit, all_digits, to_int, codes}
use middle_man.Http.Assemble.{decimal, digits_from}
use middle_man.Http.Assemble.Response.{is_filled, to_int-digits_from, all_digits-digits_from}
use middle_man.Proxy.Messages.{hostport, default_port}
use middle_man.Net.Check.{Codec, at_end, is_valid_host, is_valid_port, without_last}
use middle_man.Net.Authority.{
  span, Match, host_onto, with_host, first_match, closing, bracketed, plain, match_host,
  strip_brackets, digit_value, is_decimal, port_value, digits_to, port_tail, _authority_re,
  checked_port, checked, parse_authority,
}

abbrev pub all_of : (ℕ → Bool) → Bytes → Bool
all_of test [] = true
all_of test (c ∷ s) = test c && all_of test s

pub all_of-append :
    (test : ℕ → Bool) (s t : Bytes)
    → all_of test s ≡ true
    → all_of test t ≡ true
    → all_of test (s ++ t) ≡ true
all_of-append test [] t h e = e
all_of-append test (c ∷ s) t h e = ground (arith, h, all_of-append test s t (ground (arith, h)) e)

abbrev pub not_colon : ℕ → Bool
not_colon c = not (c == b':')

abbrev pub not_newline : ℕ → Bool
not_newline c = not (c == b'\n')

pub span-append :
    (test : ℕ → Bool) (s : Bytes) (c : ℕ) (rest : Bytes)
    → all_of test s ≡ true
    → test c ≡ false
    → span test (s ++ c ∷ rest) ≡ (s, c ∷ rest)
unfolding span
span-append test [] c rest h e = rw e refl
span-append test (d ∷ s) c rest h e =
    ground (arith, h, span-append test s c rest (ground (arith, h)) e)

pub span-all : (test : ℕ → Bool) (s : Bytes) → all_of test s ≡ true → span test s ≡ (s, [])
unfolding span
span-all test [] h = refl
span-all test (d ∷ s) h = ground (arith, h, span-all test s (ground (arith, h)))

-- a refused character behind some text is left over, so the pattern does not end there
span-at_end :
    (test : ℕ → Bool) (s : Bytes) (c : ℕ) (rest : Bytes)
    → test c ≡ false
    → (c == b'\n') ≡ false
    → at_end ((span test (s ++ c ∷ rest)).1) ≡ false
unfolding span
span-at_end test [] c [] e f = rw e f
span-at_end test [] c (d ∷ rest) e f = rw e refl
span-at_end test (d ∷ s) c rest e f = elim (Bool-cases (test d)) [
  | inl h ↦ rw h (span-at_end test s c rest e f)
  | inr h ↦ rw h (more s)
]
  where
    more : (s : Bytes) → at_end (d ∷ s ++ c ∷ rest) ≡ false
    more [] = refl
    more (b ∷ s) = refl

digits_to-open :
    (codec : Codec) (run : Bytes × Bytes)
    → at_end (run.1) ≡ false
    → digits_to codec at_end run ≡ none
digits_to-open codec ([], rest) h = refl
digits_to-open codec (c ∷ port, rest) h = rw h refl

module _ (codec : Codec) where
  is_decimal-is_digit : (c : ℕ) → is_digit c ≡ true → is_decimal codec c ≡ true
  unfolding digit_value
  is_decimal-is_digit c h = rw (h, is_decimal) refl

  all_of-all_digits : (s : Bytes) → all_digits s ≡ true → all_of (is_decimal codec) s ≡ true
  all_of-all_digits [] h = refl
  all_of-all_digits (c ∷ s) h =
      rw (is_decimal-is_digit c (ground (arith, h))) (all_of-all_digits s (ground (arith, h)))

  port_value-to_int : (n : ℕ) (s : Bytes) → all_digits s ≡ true → port_value codec n s ≡ to_int n s
  unfolding port_value digit_value
  port_value-to_int n [] h = refl
  port_value-to_int n (c ∷ s) h =
      let here : is_digit c ≡ true = ground (arith, h) in
      rw here (port_value-to_int (n * 10 + (c - b'0')) s (ground (arith, h)))

  pub decimal_port : (port : ℕ) → port_value codec 0 (decimal port) ≡ port
  unfolding decimal
  decimal_port port =
      port_value-to_int 0 (decimal port) (all_digits-digits_from port port [] (omega arith) refl).0
      ∙ to_int-digits_from port port [] (omega arith)

  digits_to-filled :
      (ends : Bytes → Bool) (s : Bytes)
      → is_filled s ≡ true
      → ends [] ≡ true
      → digits_to codec ends (s, []) ≡ some (some s)
  digits_to-filled ends [] h e = ground (arith, h)
  digits_to-filled ends (c ∷ s) h e = rw e refl

  pub port_tail-decimal :
      (ends : Bytes → Bool) (port : ℕ)
      → ends [] ≡ true
      → port_tail codec ends (b':' ∷ decimal port) ≡ some (some (decimal port))
  unfolding port_tail decimal
  port_tail-decimal ends port e =
      let digits = all_digits-digits_from port port [] (omega arith) refl in
      ap (digits_to codec ends)
        (span-all (is_decimal codec) (decimal port) (all_of-all_digits (decimal port) digits.0))
      ∙ digits_to-filled ends (decimal port) digits.1 e

  -- a port that some other character follows
  pub port_tail-open :
      (s : Bytes) (c : ℕ) (rest : Bytes)
      → is_decimal codec c ≡ false
      → (c == b'\n') ≡ false
      → port_tail codec at_end (b':' ∷ s ++ c ∷ rest) ≡ none
  unfolding port_tail
  port_tail-open s c rest e f =
      digits_to-open codec (span (is_decimal codec) (s ++ c ∷ rest))
        (span-at_end (is_decimal codec) s c rest e f)

plain-filled :
    (tail : Bytes → Option (Option Bytes)) (host rest : Bytes) (port : Option Bytes)
    → is_filled host ≡ true
    → tail rest ≡ some port
    → plain tail (host, rest) ≡ some (host, port)
plain-filled tail [] rest port h e = ground (arith, h)
plain-filled tail (c ∷ host) rest port h e = rw e refl

-- a host that the first alternative takes, up to a character that it refuses
pub match_host-plain :
    (tail : Bytes → Option (Option Bytes)) (in_host : ℕ → Bool) (host : Bytes) (c : ℕ)
    (rest : Bytes) (port : Option Bytes)
    → is_filled host ≡ true
    → all_of in_host host ≡ true
    → in_host c ≡ false
    → tail (c ∷ rest) ≡ some port
    → match_host tail in_host (host ++ c ∷ rest) ≡ some (host, port)
unfolding match_host
match_host-plain tail in_host host c rest port filled h e f =
    ap (λ run. first_match (plain tail run) (bracketed tail (host ++ c ∷ rest)))
      (span-append in_host host c rest h e)
    ∙ ap (λ m. first_match m (bracketed tail (host ++ c ∷ rest)))
        (plain-filled tail host (c ∷ rest) port filled f)

pub match_host-whole :
    (tail : Bytes → Option (Option Bytes)) (in_host : ℕ → Bool) (host : Bytes) (port : Option Bytes)
    → is_filled host ≡ true
    → all_of in_host host ≡ true
    → tail [] ≡ some port
    → match_host tail in_host host ≡ some (host, port)
unfolding match_host
match_host-whole tail in_host host port filled h f =
    ap (λ run. first_match (plain tail run) (bracketed tail host)) (span-all in_host host h)
    ∙ ap (λ m. first_match m (bracketed tail host)) (plain-filled tail host [] port filled f)

-- the port that `hostport` writes
abbrev pub shown_port : Bytes → ℕ → Option ℕ
shown_port scheme port = elim (default_port scheme) [
  | none ↦ some port
  | some standard ↦ if standard == port then none else some port
]

module _ (codec : Codec) where
  checked-port :
      (found host : Bytes) (port : ℕ)
      → strip_brackets found ≡ host
      → is_valid_host codec host ≡ true
      → port ≤ 65535
      → checked codec found (some (decimal port)) ≡ some (host, some port)
  unfolding checked is_valid_port
  checked-port found host port e valid h =
      rw (e, valid, decimal_port codec port) (ground (arith, h))

  checked-no_port :
      (found host : Bytes)
      → strip_brackets found ≡ host
      → is_valid_host codec host ≡ true
      → checked codec found none ≡ some (host, none)
  unfolding checked
  checked-no_port found host e valid = rw (e, valid) refl

  -- how an authority is read, from the matches with a port and without
  pub parse_authority-hostport_from :
      (scheme found host : Bytes) (port : ℕ)
      → _authority_re codec (found ++ b':' ∷ decimal port) ≡ some (found, some (decimal port))
      → _authority_re codec found ≡ some (found, none)
      → strip_brackets found ≡ host
      → is_valid_host codec host ≡ true
      → port ≤ 65535
      → parse_authority codec (hostport scheme found port) ≡ some (host, shown_port scheme port)
  unfolding parse_authority hostport
  parse_authority-hostport_from scheme found host port long short e valid h =
      by_default (default_port scheme)
    where
      with_port :
          elim (_authority_re codec (found ++ b':' ∷ decimal port)) [
            | none ↦ none
            | some m ↦ checked codec m.0 m.1
          ]
          ≡ some (host, some port)
      with_port = rw long (checked-port found host port e valid h)

      without_port :
          elim (_authority_re codec found) [ none ↦ none | some m ↦ checked codec m.0 m.1 ]
          ≡ some (host, none)
      without_port = rw short (checked-no_port found host e valid)

      by_default :
          (default : Option ℕ)
          → parse_authority codec (elim default [
            | none ↦ found ++ b':' ∷ decimal port
            | some standard ↦ if standard == port then found else found ++ b':' ∷ decimal port
          ])
            ≡ some (
              host,
              elim default [
                | none ↦ some port
                | some standard ↦ if standard == port then none else some port
              ],
            )
      by_default none = with_port
      by_default (some standard) = elim (Bool-cases (standard == port)) [
        | inl f ↦ rw f without_port
        | inr f ↦ rw f with_port
      ]

  -- The authority that `hostport` writes for a valid host without a colon is read back as the host, with
  -- the port unless it is the default port of the scheme.
  pub parse_authority-hostport :
      (scheme host : Bytes) (port : ℕ)
      → is_filled host ≡ true
      → all_of not_colon host ≡ true
      → strip_brackets host ≡ host
      → is_valid_host codec host ≡ true
      → port ≤ 65535
      → parse_authority codec (hostport scheme host port) ≡ some (host, shown_port scheme port)
  unfolding _authority_re port_tail
  parse_authority-hostport scheme host port filled plain bare valid h =
      parse_authority-hostport_from scheme host host port
        (match_host-plain (port_tail codec at_end) not_colon host b':' (decimal port)
          (some (decimal port)) filled plain refl (port_tail-decimal codec at_end port refl))
        (match_host-whole (port_tail codec at_end) not_colon host none filled plain refl) bare valid
        h
