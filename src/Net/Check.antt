-- ===== src/Net/Check.antt =====
-- mitmproxy/net/check.py
use middle_man.Base.{
  ℕ, zero, suc, Bool, true, false, ◌&&◌, ◌||◌, Option, none, some, List, [], ◌∷◌, ltb, leb, ◌==◌,
  if◌then◌else◌, length,
}
use middle_man.Http.Text.{Bytes, is_digit, lower_byte}

-- what the code takes from Python: the codec "idna" in both directions, "utf-8", `ipaddress`, and the
-- digits outside ASCII that `\d` and `int` know
pub record Codec : Type 0 where
  pub idna_encode : Bytes → Option Bytes
  pub idna_decode : Bytes → Option Bytes
  pub utf8_decode : Bytes → Option Bytes
  pub utf8_encode : Bytes → Option Bytes
  pub surrogateescape : Bytes → Bytes
  pub is_address : Bytes → Bool
  pub wide_digit : ℕ → Option ℕ

-- where `$` matches: at the end, and before a line feed that ends the text
abbrev pub at_end : Bytes → Bool
at_end [] = true
at_end (c ∷ []) = c == b'\n'
at_end (c ∷ d ∷ s) = false

-- the text before its last character, when that is the given one
unfoldable pub without_last : ℕ → Bytes → Option Bytes
without_last last [] = none
without_last last (c ∷ []) = if c == last then some [] else none
without_last last (c ∷ d ∷ s) = elim (without_last last (d ∷ s)) [
  | none ↦ none
  | some front ↦ some (c ∷ front)
]

abbrev pub onto_first : ℕ → List Bytes → List Bytes
onto_first c [] = (c ∷ []) ∷ []
onto_first c (label ∷ labels) = (c ∷ label) ∷ labels

-- `split` on one character
unfoldable pub split_on : ℕ → Bytes → List Bytes
split_on sep [] = [] ∷ []
split_on sep (c ∷ s) =
    let labels = split_on sep s in if c == sep then [] ∷ labels else onto_first c labels

-- the class of `_label_valid`, in either case
unfoldable pub is_label_char : ℕ → Bool
unfolding lower_byte
is_label_char c =
    leb b'a' (lower_byte c) && leb (lower_byte c) b'z' || is_digit c || c == b'-' || c == b'_'

-- at most so many characters of a label, then `$`
unfoldable pub label_rest : ℕ → Bytes → Bool
unfolding is_label_char
label_rest n [] = true
label_rest zero (c ∷ s) = at_end (c ∷ s)
label_rest (suc n) (c ∷ s) =
    let rest = label_rest n s in if is_label_char c then rest else at_end (c ∷ s)

-- `_label_valid.match`
unfoldable pub _label_valid : Bytes → Bool
unfolding is_label_char label_rest
_label_valid [] = false
_label_valid (c ∷ s) = is_label_char c && label_rest 62 s

abbrev all_valid : List Bytes → Bool
all_valid [] = true
all_valid (label ∷ labels) = _label_valid label && all_valid labels

-- `host_bytes` without a trailing dot
unfoldable pub without_dot : Bytes → Bytes
unfolding without_last
without_dot host = elim (without_last b'.' host) [ none ↦ host | some front ↦ front ]

module _ (codec : Codec) where
  -- what follows once the host is bytes that "idna" decodes
  unfoldable pub is_valid_name : Bytes → Bool
  unfolding _label_valid split_on
  is_valid_name host = all_valid (split_on b'.' host) || codec.is_address host

  unfoldable pub is_valid_host_bytes : Bytes → Bool
  unfolding without_dot is_valid_name
  is_valid_host_bytes host = elim (codec.idna_decode host) [
    | none ↦ false
    | some text ↦ if ltb 255 (length host) then false else is_valid_name (without_dot host)
  ]

  -- `is_valid_host` of a str
  unfoldable pub is_valid_host : Bytes → Bool
  unfolding is_valid_host_bytes
  is_valid_host host = elim (codec.idna_encode host) [
    | none ↦ false
    | some host_bytes ↦ is_valid_host_bytes host_bytes
  ]

-- `is_valid_port` of a number that is not negative
unfoldable pub is_valid_port : ℕ → Bool
is_valid_port port = leb port 65535
