-- ===== src/Http/Read.antt =====
-- `_read_headers` of mitmproxy/net/http/http1/read.py, and the header block that `Headers.__bytes__` of
-- mitmproxy/http.py writes.
pub mod Headers
use middle_man.Base.{
  ℕ, Bool, true, false, ◌&&◌, ◌||◌, not, Option, none, some, List, [], ◌∷◌, ◌++◌, map, leb, ◌==◌,
  if◌then◌else◌,
}
use middle_man.Http.Text.{Bytes, codes, strip, join}
use middle_man.Http.Headers.{Fields}

-- the bytes that `bytes.strip` removes
unfoldable pub is_space_byte : ℕ → Bool
is_space_byte c = (leb 9 c && leb c 13) || c == 32

-- `line[0] in b" \t"`
abbrev pub is_fold : ℕ → Bool
is_fold c = c == 32 || c == 9

-- `line.split(b":", 1)` into two parts, with `none` for the ValueError of fewer
unfoldable pub split_colon : Bytes → Option (Bytes × Bytes)
split_colon [] = none
split_colon (c ∷ s) = elim (c == b':') [
  | true ↦ some ([], s)
  | false ↦ elim (split_colon s) [ none ↦ none | some parts ↦ some (c ∷ parts.0, parts.1) ]
]

-- `if not name: raise ValueError()`, and the field
unfoldable pub named : Bytes → Bytes → Option (Bytes × Bytes)
unfolding strip is_space_byte
named [] value = none
named (c ∷ name) value = some (c ∷ name, strip is_space_byte value)

-- a line that begins a field
unfoldable pub read_field : Bytes → Option (Bytes × Bytes)
unfolding split_colon named
read_field line = elim (split_colon line) [ none ↦ none | some parts ↦ named (parts.0) (parts.1) ]

-- `ret[-1] = (ret[-1][0], ret[-1][1] + text)`, with `none` for an empty list
unfoldable pub amend : Fields → Bytes → Option Fields
amend [] text = none
amend (field ∷ []) text = some ((field.0, field.1 ++ text) ∷ [])
amend (field ∷ field' ∷ fields) text = elim (amend (field' ∷ fields) text) [
  | none ↦ none
  | some rest ↦ some (field ∷ rest)
]

-- the body of the loop, with `none` for a ValueError, or the IndexError of an empty line
unfoldable pub read_line : Fields → Bytes → Option Fields
unfolding amend read_field strip is_space_byte
read_line ret [] = none
read_line ret (c ∷ line) =
    if is_fold c
    then amend ret (codes "\r\n " ++ strip is_space_byte (c ∷ line))
    else elim (read_field (c ∷ line)) [ none ↦ none | some field ↦ some (ret ++ field ∷ []) ]

unfoldable pub read_from : Fields → List Bytes → Option Fields
unfolding read_line
read_from ret [] = some ret
read_from ret (line ∷ lines) = elim (read_line ret line) [
  | none ↦ none
  | some ret' ↦ read_from ret' lines
]

unfoldable pub _read_headers : List Bytes → Option Fields
unfolding read_from
_read_headers lines = read_from [] lines

-- `b": ".join(field)`
unfoldable pub header_line : Bytes × Bytes → Bytes
header_line field = field.0 ++ (codes ": " ++ field.1)

-- `Headers.__bytes__`
unfoldable pub to_bytes : Fields → Bytes
unfolding header_line join
to_bytes [] = []
to_bytes (field ∷ fields) = join (codes "\r\n") (map header_line (field ∷ fields)) ++ codes "\r\n"
