-- ===== src/Http/Assemble/Response.antt =====
-- A response line that is written and read back.
use mathlib.Core.Path.{subst}
use middle_man.Base.{
  ℕ, zero, suc, ◌+◌, ◌*◌, ◌-◌, ◌/◌, ◌%◌, ◌≤◌, ◌≡◌, refl, ◌∙◌, ap, sym, Bool, true, false, not, ◌&&◌,
  Option, some, [], ◌∷◌, ◌++◌, ltb, arith, inl, inr, Bool-cases,
}
use middle_man.Http.Text.{Bytes, is_digit, all_digits, to_int}
use middle_man.Http.Read.{is_space_byte}
use middle_man.Http.Assemble.{
  digit, digits_from, decimal, ResponseData, _assemble_response_line, take_word, skip_blanks,
  is_version, digits_value, int_value, int_of, response_line, _read_response_line,
}

abbrev pub no_blank : Bytes → Bool
no_blank [] = true
no_blank (c ∷ s) = not (is_space_byte c) && no_blank s

abbrev pub is_filled : Bytes → Bool
is_filled [] = false
is_filled (c ∷ s) = true

pub filled-append : (s t : Bytes) → is_filled s ≡ true → is_filled (s ++ t) ≡ true
filled-append [] t h = ground (arith, h)
filled-append (c ∷ s) t h = refl

pub take_word-append :
    (word rest : Bytes)
    → no_blank word ≡ true
    → take_word (word ++ b' ' ∷ rest) ≡ (word, b' ' ∷ rest)
unfolding take_word is_space_byte
take_word-append [] rest h = refl
take_word-append (c ∷ word) rest h =
    ground (arith, h, take_word-append word rest (ground (arith, h)))

pub skip_blanks-append :
    (word rest : Bytes)
    → is_filled word ≡ true
    → no_blank word ≡ true
    → skip_blanks (word ++ rest) ≡ word ++ rest
unfolding skip_blanks
skip_blanks-append [] rest filled h = ground (arith, filled)
skip_blanks-append (c ∷ word) rest filled h = ground (arith, h)

pub all_digits-no_blank : (s : Bytes) → all_digits s ≡ true → no_blank s ≡ true
unfolding is_space_byte
all_digits-no_blank [] h = refl
all_digits-no_blank (c ∷ s) h = ground (arith, h, all_digits-no_blank s (ground (arith, h)))

pub is_version-no_blank : (v : Bytes) → is_version v ≡ true → no_blank v ≡ true
unfolding is_version is_space_byte
is_version-no_blank [] v = refl
is_version-no_blank (a ∷ []) v = ground (arith, v)
is_version-no_blank (a ∷ b ∷ []) v = ground (arith, v)
is_version-no_blank (a ∷ b ∷ c ∷ []) v = ground (arith, v)
is_version-no_blank (a ∷ b ∷ c ∷ d ∷ []) v = ground (arith, v)
is_version-no_blank (a ∷ b ∷ c ∷ d ∷ e ∷ []) v = ground (arith, v)
is_version-no_blank (a ∷ b ∷ c ∷ d ∷ e ∷ f ∷ []) v = ground (arith, v)
is_version-no_blank (a ∷ b ∷ c ∷ d ∷ e ∷ f ∷ g ∷ []) v = ground (arith, v)
is_version-no_blank (a ∷ b ∷ c ∷ d ∷ e ∷ f ∷ g ∷ h ∷ []) v = ground (arith, v)
is_version-no_blank (a ∷ b ∷ c ∷ d ∷ e ∷ f ∷ g ∷ h ∷ i ∷ s) v = ground (arith, v)

pub is_version-is_filled : (v : Bytes) → is_version v ≡ true → is_filled v ≡ true
unfolding is_version
is_version-is_filled [] v = ground (arith, v)
is_version-is_filled (c ∷ s) v = refl

pub digits_value-to_int :
    (n : ℕ) (s : Bytes) → all_digits s ≡ true → digits_value n s ≡ some (to_int n s)
unfolding digits_value
digits_value-to_int n [] h = refl
digits_value-to_int n (c ∷ []) h = ground (arith, h)
digits_value-to_int n (c ∷ d ∷ s) h =
    ground (arith, h, digits_value-to_int (n * 10 + (c - b'0')) (d ∷ s) (ground (arith, h)))

int_of-to_int :
    (s : Bytes) → is_filled s ≡ true → all_digits s ≡ true → int_of s ≡ some (false, to_int 0 s)
unfolding int_of int_value
int_of-to_int [] filled h = ground (arith, filled)
int_of-to_int (c ∷ s) filled h =
    ground (arith, h, digits_value-to_int (c - b'0') s (ground (arith, h)))

digit_lem : (d : ℕ) → d ≤ 9 → digit d ≡ 48 + d
unfolding digit
digit_lem d h = ground (arith, h)

to_int-digit :
    (n m d : ℕ) (rest : Bytes) → d ≤ 9 → n * 10 + d ≡ m → to_int n (digit d ∷ rest) ≡ to_int m rest
to_int-digit n m d rest h e = ap (λ k. to_int k rest) (omega (arith, digit_lem d h, e))

is_digit-add : (d : ℕ) → d ≤ 9 → is_digit (48 + d) ≡ true
is_digit-add d h = ground (arith, h)

is_digit-digit : (d : ℕ) → d ≤ 9 → is_digit (digit d) ≡ true
is_digit-digit d h = ap is_digit (digit_lem d h) ∙ is_digit-add d h

all_digits-digit :
    (d : ℕ) (rest : Bytes) → d ≤ 9 → all_digits rest ≡ true → all_digits (digit d ∷ rest) ≡ true
all_digits-digit d rest h all =
    subst (λ b. (b && all_digits rest) ≡ true) (sym (is_digit-digit d h)) all

pub to_int-digits_from :
    (fuel n : ℕ) (rest : Bytes) → n ≤ fuel → to_int 0 (digits_from 10 fuel n rest) ≡ to_int n rest
unfolding digits_from
to_int-digits_from zero n rest h = to_int-digit 0 n n rest (omega (arith, h)) (omega arith)
to_int-digits_from (suc fuel) n rest h = elim (Bool-cases (ltb n 10)) [
  | inl e ↦ rw (e, digits_from) (ap (λ k. to_int k rest) (omega arith))
  | inr e ↦
      rw (e, digits_from)
        (to_int-digits_from fuel (n / 10) (digit (n % 10) ∷ rest) (ground (arith, e, h))
          ∙ to_int-digit (n / 10) n (n % 10) rest (omega arith) (omega arith))
]

pub all_digits-digits_from :
    (fuel n : ℕ) (rest : Bytes)
    → n ≤ fuel
    → all_digits rest ≡ true
    → (all_digits (digits_from 10 fuel n rest) ≡ true)
      × (is_filled (digits_from 10 fuel n rest) ≡ true)
unfolding digits_from
all_digits-digits_from zero n rest h d = (all_digits-digit n rest (omega (arith, h)) d, refl)
all_digits-digits_from (suc fuel) n rest h d = elim (Bool-cases (ltb n 10)) [
  | inl e ↦
      rw (e, digits_from)
        (
          subst (λ b. (b && all_digits rest) ≡ true) (sym (is_digit-add n (ground (arith, e)))) d,
          refl,
        )
  | inr e ↦
      rw (e, digits_from)
        (all_digits-digits_from fuel (n / 10) (digit (n % 10) ∷ rest) (ground (arith, e, h))
          (all_digits-digit (n % 10) rest (omega arith) d))
]

pub int_of-decimal : (n : ℕ) → int_of (decimal n) ≡ some (false, n)
unfolding decimal
int_of-decimal n =
    let digits = all_digits-digits_from n n [] (omega arith) refl in
    int_of-to_int (decimal n) (digits.1) (digits.0)
    ∙ ap (λ m. some (false, m)) (to_int-digits_from n n [] (omega arith))

read_parts :
    (line first after_first second after_second version digits : Bytes) (code : Bool × ℕ)
    → skip_blanks line ≡ first
    → take_word first ≡ (version, after_first)
    → skip_blanks after_first ≡ second
    → take_word second ≡ (digits, after_second)
    → int_of digits ≡ some code
    → is_version version ≡ true
    → _read_response_line line ≡ some (version, (code, skip_blanks after_second))
unfolding _read_response_line
read_parts line first after_first second after_second version digits code a b c d e f =
    subst (λ l. read l ≡ some (version, (code, skip_blanks after_second))) (sym a)
      (rw (b, c, d) (rw (e, f, response_line) refl))
  where
    read : Bytes → Option (Bytes × ((Bool × ℕ) × Bytes))
    read l =
        let first = take_word l in
        let second = take_word (skip_blanks (first.1)) in
        response_line (first.0) (second.0) (skip_blanks (second.1))

-- A response line with a valid version and a reason that does not begin with a blank is read back as
-- it was written, whatever the status code.
pub _read_response_line-_assemble_response_line :
    (response : ResponseData)
    → is_version (response.http_version) ≡ true
    → skip_blanks (response.reason) ≡ response.reason
    → _read_response_line (_assemble_response_line response)
      ≡ some (response.http_version, ((false, response.status_code), response.reason))
unfolding _assemble_response_line skip_blanks is_space_byte decimal
_read_response_line-_assemble_response_line response valid clean =
    let digits =
      all_digits-digits_from (response.status_code) (response.status_code) [] (omega arith) refl in
    let rest = decimal (response.status_code) ++ b' ' ∷ response.reason in
    let version = response.http_version in
    let no_blanks = is_version-no_blank version valid in
    let code = decimal (response.status_code) in
    let digits_no_blank = all_digits-no_blank code (digits.0) in
    read_parts (_assemble_response_line response) (version ++ b' ' ∷ rest) (b' ' ∷ rest) rest
      (b' ' ∷ response.reason) version code (false, response.status_code)
      (skip_blanks-append version (b' ' ∷ rest) (is_version-is_filled version valid) no_blanks)
      (take_word-append version rest no_blanks)
      (skip_blanks-append code (b' ' ∷ response.reason) (digits.1) digits_no_blank)
      (take_word-append code (response.reason) digits_no_blank)
      (int_of-decimal (response.status_code)) valid
    ∙ ap (λ r. some (version, ((false, response.status_code), r))) clean
