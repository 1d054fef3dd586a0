-- ===== src/Http/ContentType.antt =====
-- `parse_content_type` and `assemble_content_type` of mitmproxy/net/http/headers.py, over `str.lower` and
-- the blanks of `str.strip`.
pub mod Charset
pub mod RoundTrip
mod Tests
use middle_man.Base.{
  ℕ, Bool, true, false, not, Option, none, some, List, [], ◌∷◌, ◌++◌, map, ◌==◌, if◌then◌else◌,
}
use middle_man.Http.Text.{Bytes, codes, bytes_eq, strip, join}
use middle_man.Net.Check.{split_on}

abbrev pub Parameters : Type 0
Parameters = List (Bytes × Bytes)

-- `split(sep, 1)`, with `none` for a list of one
unfoldable pub split_once : ℕ → Bytes → Option (Bytes × Bytes)
split_once sep [] = none
split_once sep (c ∷ s) =
    let rest = split_once sep s in
    if c == sep
    then some ([], s)
    else elim rest [ none ↦ none | some parts ↦ some (c ∷ parts.0, parts.1) ]

-- `d[key] = value`
unfoldable pub set_parameter : Bytes → Bytes → Parameters → Parameters
set_parameter key value [] = (key, value) ∷ []
set_parameter key value ((k, v) ∷ d) =
    let rest = set_parameter key value d in if bytes_eq k key then (k, value) ∷ d else (k, v) ∷ rest

-- a text without its separator is its first part
abbrev pub parts_of : Bytes → Option (Bytes × Bytes) → Bytes × Option Bytes
parts_of c none = (c, none)
parts_of c (some parts) = (parts.0, some (parts.1))

module _ (lower_str : Bytes → Bytes) (is_blank : ℕ → Bool) where
  -- the loop over the clauses
  unfoldable pub read_clauses : Parameters → List Bytes → Parameters
  unfolding split_once set_parameter strip
  read_clauses d [] = d
  read_clauses d (i ∷ clauses) = elim (split_once b'=' i) [
    | none ↦ read_clauses d clauses
    | some clause ↦
        read_clauses (set_parameter (strip is_blank (clause.0)) (strip is_blank (clause.1)) d)
          clauses
  ]

  unfoldable pub parameters_of : Option Bytes → Parameters
  unfolding read_clauses split_on
  parameters_of none = []
  parameters_of (some text) = read_clauses [] (split_on b';' text)

  -- `parse_content_type`
  unfoldable pub parse_content_type : Bytes → Option (Bytes × (Bytes × Parameters))
  unfolding split_once parameters_of
  parse_content_type c =
      let parts = parts_of c (split_once b';' c) in
      elim (split_once b'/' (parts.0)) [
        | none ↦ none
        | some ts ↦ some (lower_str (ts.0), (lower_str (ts.1), parameters_of (parts.1)))
      ]

-- `f"{k}={v}"`
abbrev pub pair_text : Bytes × Bytes → Bytes
pair_text (k, v) = k ++ b'=' ∷ v

unfoldable pub assemble_content_type : Bytes → Bytes → Parameters → Bytes
unfolding join
assemble_content_type type subtype [] = type ++ b'/' ∷ subtype
assemble_content_type type subtype (parameter ∷ parameters) =
    type
    ++ b'/'
      ∷ (subtype ++ (codes "; " ++ join (codes "; ") (map pair_text (parameter ∷ parameters))))
