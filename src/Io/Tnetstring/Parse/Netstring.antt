-- ===== src/Io/Tnetstring/Parse/Netstring.antt =====
-- One netstring in front of any bytes is taken apart into its payload, its tag and those bytes.
use middle_man.Base.{
  ◌*◌, ◌/◌, ◌%◌, ◌<◌, ltb, inl, inr, Bool-cases, ℤ, pos, negsuc, ◌-◌, ℕ, zero, suc, ◌+◌, ◌≤◌, ◌≡◌,
  refl, ◌∙◌, ap, true, false, none, some, [], ◌∷◌, ◌++◌, append_assoc, append-nil, ◌==◌, arith,
  length, length-append,
}
use middle_man.Http.Text.{Bytes, is_digit, all_digits, to_int, strip, strip_right}
use middle_man.Http.Read.{is_space_byte}
use middle_man.Http.Assemble.{digit, decimal, digits_from, int_of, int_value}
use middle_man.Http.Assemble.Response.{
  is_filled, filled-append, no_blank, all_digits-digits_from, all_digits-no_blank, int_of-decimal,
  digits_value-to_int, to_int-digits_from,
}
use middle_man.Io.Tnetstring.{Value, integer, int_text}
use middle_man.Io.Tnetstring.Format.{netstring}
use middle_man.Io.Tnetstring.Parse.{
  Loaded, invalid, loaded, read_length, load_digits, load_parts, load, Python, read_integer, parse,
  pop_parts, pop, with_remain,
}
use middle_man.Io.Tnetstring.Parts.{tag_of, read_int, take, drop, split_at, cut, parts_of}

strip_right-no_blank : (s : Bytes) → no_blank s ≡ true → strip_right is_space_byte [] s ≡ s
unfolding strip_right
strip_right-no_blank [] h = refl
strip_right-no_blank (c ∷ s) h =
    let here : is_space_byte c ≡ false = ground (arith, h) in
    rw (here, strip_right-no_blank s (ground (arith, h))) refl

strip-no_blank : (s : Bytes) → no_blank s ≡ true → strip is_space_byte s ≡ s
unfolding strip
strip-no_blank [] h = refl
strip-no_blank (c ∷ s) h =
    let here : is_space_byte c ≡ false = ground (arith, h) in
    rw (here, strip_right-no_blank s (ground (arith, h))) refl

pub digits_of : (n : ℕ) → (all_digits (decimal n) ≡ true) × (is_filled (decimal n) ≡ true)
unfolding decimal
digits_of n = all_digits-digits_from n n [] (omega arith) refl

read_int-decimal : (n : ℕ) → read_int (decimal n) ≡ some (false, n)
unfolding read_int
read_int-decimal n =
    rw (strip-no_blank (decimal n) (all_digits-no_blank (decimal n) (digits_of n).0))
      (int_of-decimal n)

split_at-digits :
    (front digits rest : Bytes)
    → all_digits digits ≡ true
    → split_at b':' front (digits ++ b':' ∷ rest)
      ≡ elim (read_int (front ++ digits)) [ none ↦ none | some size ↦ some (size, rest) ]
unfolding split_at
split_at-digits front [] rest h = rw append-nil refl
split_at-digits front (c ∷ digits) rest h =
    let here : (c == b':') ≡ false = ground (arith, h) in
    rw here
      (split_at-digits (front ++ c ∷ []) digits rest (ground (arith, h)) ∙ rw append_assoc refl)

take-append : (s rest : Bytes) → take (length s) (s ++ rest) ≡ s
unfolding take
take-append [] rest = refl
take-append (c ∷ s) rest = ap (λ t. c ∷ t) (take-append s rest)

drop-append : (s rest : Bytes) → drop (length s) (s ++ rest) ≡ rest
unfolding drop
drop-append [] rest = refl
drop-append (c ∷ s) rest = drop-append s rest

cut-append :
    (payload : Bytes) (tag : ℕ) (rest : Bytes)
    → cut false (length payload) (payload ++ tag ∷ rest) ≡ some (payload, (tag, rest))
unfolding cut
cut-append payload tag rest =
    rw (take-append payload (tag ∷ rest), drop-append payload (tag ∷ rest)) refl

netstring-append :
    (tag : ℕ) (payload rest : Bytes)
    → netstring tag payload ++ rest ≡ decimal (length payload) ++ b':' ∷ (payload ++ tag ∷ rest)
unfolding netstring
netstring-append tag payload rest = rw (append_assoc, append_assoc) refl

parts_of-netstring :
    (tag : ℕ) (payload rest : Bytes)
    → parts_of (netstring tag payload ++ rest) ≡ some (payload, (tag, rest))
unfolding parts_of
parts_of-netstring tag payload rest =
    let size = length payload in
    let split : split_at b':' [] (netstring tag payload ++ rest)
        ≡ some ((false, size), payload ++ tag ∷ rest) =
      ap (split_at b':' []) (netstring-append tag payload rest)
      ∙ split_at-digits [] (decimal size) (payload ++ tag ∷ rest) (digits_of size).0
      ∙ rw (read_int-decimal size) refl in
    rw (parts_of, split) (cut-append payload tag rest)

pub netstring-filled : (tag : ℕ) (payload : Bytes) → is_filled (netstring tag payload) ≡ true
unfolding netstring
netstring-filled tag payload = by_digits (decimal (length payload)) (digits_of (length payload)).1
  where
    by_digits :
        (s : Bytes) → is_filled s ≡ true → is_filled (s ++ (b':' ∷ (payload ++ tag ∷ []))) ≡ true
    by_digits [] h = refl
    by_digits (c ∷ s) h = refl

length-payload : (tag : ℕ) (payload : Bytes) → 2 + length payload ≤ length (netstring tag payload)
unfolding netstring
length-payload tag payload = omega (
  arith,
  length-append (decimal (length payload)) (b':' ∷ (payload ++ tag ∷ [])),
  length-append payload (tag ∷ []),
)

-- fuel for the payload is left
pub pop-netstring :
    (python : Python) (tag : ℕ) (payload rest : Bytes) (value : Value) (fuel : ℕ)
    → length (netstring tag payload) ≤ fuel
    → ((fuel : ℕ)
        → length payload ≤ fuel
        → parse python (pop python fuel) (tag_of tag) payload ≡ some value)
    → pop python fuel (netstring tag payload ++ rest) ≡ some (value, rest)
unfolding pop pop_parts
pop-netstring python tag payload rest value zero h e =
    absurd (omega (arith, h, length-payload tag payload))
pop-netstring python tag payload rest value (suc fuel) h e =
    ap (pop_parts python (pop python fuel)) (parts_of-netstring tag payload rest)
    ∙ ap (with_remain rest) (e fuel (omega (arith, h, length-payload tag payload)))

int_of-minus :
    (s : Bytes)
    → is_filled s ≡ true
    → all_digits s ≡ true
    → int_of (b'-' ∷ s) ≡ some (true, to_int 0 s)
unfolding int_of int_value
int_of-minus [] filled h = ground (arith, filled)
int_of-minus (c ∷ s) filled h =
    ground (arith, h, digits_value-to_int (c - b'0') s (ground (arith, h)))

pub read_int-int_text : (n : ℤ) → read_integer (read_int (int_text n)) ≡ some (integer n)
unfolding int_text read_int decimal
read_int-int_text (pos zero) = refl
read_int-int_text (pos (suc n)) = ap read_integer (read_int-decimal (suc n))
read_int-int_text (negsuc n) =
    let digits = digits_of (suc n) in
    ap (λ s. read_integer (int_of s))
      (strip-no_blank (b'-' ∷ decimal (suc n)) (all_digits-no_blank (decimal (suc n)) digits.0))
    ∙ ap read_integer (
        int_of-minus (decimal (suc n)) digits.1 digits.0
        ∙ ap (λ m. some (true, m)) (to_int-digits_from (suc n) (suc n) [] (omega arith)))

abbrev power_of_ten : ℕ → ℕ
power_of_ten zero = 1
power_of_ten (suc k) = 10 * power_of_ten k

length-digits_from :
    (k fuel n : ℕ) (rest : Bytes)
    → n < power_of_ten (suc k)
    → n ≤ fuel
    → length (digits_from 10 fuel n rest) ≤ suc k + length rest
unfolding digits_from
length-digits_from k zero n rest h f = omega arith
length-digits_from zero (suc fuel) n rest h f =
    let small : ltb n 10 ≡ true = ground (arith, h) in rw (small, digits_from) (omega arith)
length-digits_from (suc k) (suc fuel) n rest h f = elim (Bool-cases (ltb n 10)) [
  | inl e ↦ rw (e, digits_from) (omega arith)
  | inr e ↦
      let more =
        length-digits_from k fuel (n / 10) (digit (n % 10) ∷ rest) (omega (arith, h))
          (ground (arith, e, f)) in
      rw (e, digits_from) (omega (arith, more))
]

read_length-digits :
    (count : ℕ) (digits rest : Bytes)
    → all_digits digits ≡ true
    → count + length digits ≤ 12
    → read_length count (digits ++ b':' ∷ rest) ≡ some (digits, rest)
unfolding read_length
read_length-digits count [] rest h f = refl
read_length-digits count (c ∷ digits) rest h f =
    let here : is_digit c ≡ true = ground (arith, h) in
    let room : ltb count 12 ≡ true = ground (arith, f) in
    rw
      (
        here,
        room,
        read_length-digits (suc count) digits rest (ground (arith, h)) (omega (arith, f)),
      )
      refl

-- `load` behind the digits of a length
load_digits-filled :
    (python : Python) (digits rest : Bytes)
    → is_filled digits ≡ true
    → load_digits python (some (digits, rest))
      ≡ load_parts python (cut false (to_int 0 digits) rest)
load_digits-filled python [] rest h = ground (arith, h)
load_digits-filled python (d ∷ digits) rest h = refl

load-filled :
    (python : Python) (s : Bytes)
    → is_filled s ≡ true
    → load python s ≡ load_digits python (read_length 0 s)
unfolding load
load-filled python [] h = ground (arith, h)
load-filled python (c ∷ s) h = refl

pub load-netstring :
    (python : Python) (tag : ℕ) (payload rest : Bytes) (value : Value)
    → length (netstring tag payload) ≤ 999999999999
    → ((fuel : ℕ)
        → length payload ≤ fuel
        → parse python (pop python fuel) (tag_of tag) payload ≡ some value)
    → load python (netstring tag payload ++ rest) ≡ loaded value rest
unfolding decimal parse
load-netstring python tag payload rest value bound e =
    let size = length payload in
    let digits = digits_of size in
    let few : length (decimal size) ≤ 12 = omega (
      arith,
      length-digits_from 11 size size [] (omega (arith, bound, length-payload tag payload))
          (omega arith),
    ) in
    let text = decimal size ++ b':' ∷ (payload ++ tag ∷ rest) in
    ap (load python) (netstring-append tag payload rest)
    ∙ load-filled python text
        (filled-append (decimal size) (b':' ∷ (payload ++ tag ∷ rest)) digits.1)
    ∙ ap (load_digits python)
        (read_length-digits 0 (decimal size) (payload ++ tag ∷ rest) digits.0 (omega (arith, few)))
    ∙ load_digits-filled python (decimal size) (payload ++ tag ∷ rest) digits.1
    ∙ ap (λ n. load_parts python (cut false n (payload ++ tag ∷ rest)))
        (to_int-digits_from size size [] (omega arith))
    ∙ ap (load_parts python) (cut-append payload tag rest)
    ∙ ap (λ v. elim v as (λ o. Loaded) [ none ↦ invalid | some value ↦ loaded value rest ])
        (e size (omega arith))
