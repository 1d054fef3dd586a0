-- ===== src/Io/Tnetstring/Parts.antt =====
-- How mitmproxy/io/tnetstring.py takes a netstring apart: the length, the slices and the tag.
use middle_man.Base.{
  ℕ, zero, suc, ◌+◌, ◌-◌, Bool, true, false, Option, none, some, [], ◌∷◌, ◌++◌, leb, ◌==◌,
  if◌then◌else◌, length,
}
use middle_man.Http.Text.{Bytes, strip}
use middle_man.Http.Read.{is_space_byte}
use middle_man.Http.Assemble.{int_of}

-- the types of the tags
pub data Tag : Type 0 where
  bytes_tag str_tag integer_tag float_tag boolean_tag null_tag list_tag dict_tag other_tag : Tag

unfoldable pub tag_of : ℕ → Tag
tag_of c =
    if c == b','
    then bytes_tag
    else if c == b';'
    then str_tag
    else if c == b'#'
    then integer_tag
    else if c == b'^'
    then float_tag
    else if c == b'!'
    then boolean_tag
    else if c == b'~'
    then null_tag
    else if c == b']'
    then list_tag
    else if c == b'}'
    then dict_tag
    else other_tag

-- `int` of bytes
unfoldable pub read_int : Bytes → Option (Bool × ℕ)
unfolding strip is_space_byte int_of
read_int payload = int_of (strip is_space_byte payload)

-- `data[:n]` and `data[n:]`
unfoldable pub take : ℕ → Bytes → Bytes
take zero s = []
take (suc n) [] = []
take (suc n) (c ∷ s) = c ∷ take n s

unfoldable pub drop : ℕ → Bytes → Bytes
drop zero s = s
drop (suc n) [] = []
drop (suc n) (c ∷ s) = drop n s

-- `split`: the integer in front of the separator, and what follows it
unfoldable pub split_at : ℕ → Bytes → Bytes → Option ((Bool × ℕ) × Bytes)
unfolding read_int
split_at sep front [] = none
split_at sep front (c ∷ s) =
    let rest = split_at sep (front ++ c ∷ []) s in
    if c == sep then elim (read_int front) [ none ↦ none | some size ↦ some (size, s) ] else rest

-- a length, a tag and the rest of the bytes
abbrev pub Parts : Type 0
Parts = Bytes × (ℕ × Bytes)

abbrev pub first_of : Bytes → Bytes → Option Parts
first_of payload [] = none
first_of payload (tag ∷ remain) = some (payload, (tag, remain))

-- `data[:length], data[length], data[length + 1 :]`; a negative length counts from the end
unfoldable pub cut : Bool → ℕ → Bytes → Option Parts
unfolding take drop
cut false n s = first_of (take n s) (drop n s)
cut true zero s = first_of [] s
cut true (suc zero) s = elim s [
  | [] ↦ none
  | c ∷ t ↦ elim (drop (length t) (c ∷ t)) [
    | [] ↦ none
    | tag ∷ last ↦ some (take (length t) (c ∷ t), (tag, c ∷ t))
  ]
]
cut true (suc (suc n)) s =
    let front = length s - (n + 2) in
    if leb (n + 2) (length s) then first_of (take front s) (drop front s) else none

unfoldable pub parts_of : Bytes → Option Parts
unfolding split_at cut
parts_of s = elim (split_at b':' [] s) [
  | none ↦ none
  | some (size, rest) ↦ cut (size.0) (size.1) rest
]
