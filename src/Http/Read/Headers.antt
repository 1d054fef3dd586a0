-- ===== src/Http/Read/Headers.antt =====
-- Headers that are written and read back.
use middle_man.Base.{
  ℕ, ◌≡◌, refl, ◌∙◌, ap, sym, Bool, true, false, ◌&&◌, not, some, [], ◌∷◌, ◌++◌, map, append_assoc,
  append-nil, arith, ◌==◌, inl, inr, Bool-cases,
}
use middle_man.Http.Text.{Bytes, codes, strip}
use middle_man.Http.Headers.{Fields}
use middle_man.Http.Read.{
  is_space_byte, is_fold, split_colon, read_field, named, read_line, read_from, _read_headers,
  header_line,
}

abbrev pub has_no_colon : Bytes → Bool
has_no_colon [] = true
has_no_colon (c ∷ s) = not (c == b':') && has_no_colon s

-- a name that can begin a line: it is not empty, has no colon, and does not look like a folded line
abbrev pub is_plain : Bytes → Bool
is_plain [] = false
is_plain (c ∷ s) = not (is_fold c) && has_no_colon (c ∷ s)

-- names are plain, and no value has blanks around it
abbrev pub IsPlain : Fields → Type 0
IsPlain [] = Unit
IsPlain (field ∷ fields) =
    (is_plain (field.0) ≡ true) × (strip is_space_byte (field.1) ≡ field.1) × IsPlain fields

split_colon-append :
    (name rest : Bytes)
    → has_no_colon name ≡ true
    → split_colon (name ++ b':' ∷ rest) ≡ some (name, rest)
unfolding split_colon
split_colon-append [] rest h = refl
split_colon-append (c ∷ s) rest h = ground (arith, h, split_colon-append s rest (ground (arith, h)))

-- the blank behind the colon does not count
strip-blank : (value : Bytes) → strip is_space_byte (32 ∷ value) ≡ strip is_space_byte value
unfolding strip is_space_byte
strip-blank value = refl

read_field-header_line :
    (c : ℕ) (name value : Bytes)
    → has_no_colon (c ∷ name) ≡ true
    → strip is_space_byte value ≡ value
    → read_field (c ∷ name ++ (codes ": " ++ value)) ≡ some (c ∷ name, value)
unfolding read_field named
read_field-header_line c name value plain clean =
    rw (split_colon-append (c ∷ name) (32 ∷ value) plain, read_field)
      (ap (λ v. some (c ∷ name, v)) (strip-blank value ∙ clean))

read_line-header_line :
    (ret : Fields) (field : Bytes × Bytes)
    → is_plain (field.0) ≡ true
    → strip is_space_byte (field.1) ≡ field.1
    → read_line ret (header_line field) ≡ some (ret ++ field ∷ [])
unfolding read_line header_line
read_line-header_line ret ([], value) plain clean = ground (arith, plain)
read_line-header_line ret (c ∷ name, value) plain clean = elim (Bool-cases (is_fold c)) [
  | inl e ↦ ground (arith, plain, e)
  | inr e ↦
      rw (e, read_line, read_field-header_line c name value (ground (arith, plain)) clean) refl
]

read_from-header_line :
    (ret fields : Fields)
    → IsPlain fields
    → read_from ret (map header_line fields) ≡ some (ret ++ fields)
unfolding read_from
read_from-header_line ret [] h = ap some (sym (append-nil ret))
read_from-header_line ret (field ∷ fields) (plain, clean, h) =
    rw (read_line-header_line ret field plain clean, read_from)
      (read_from-header_line (ret ++ field ∷ []) fields h
        ∙ ap some (append_assoc ret (field ∷ []) fields))

-- Headers whose names are not empty, contain no colon and do not begin with a blank, and whose values
-- have no blanks around them, are read back from their lines as they were.
pub _read_headers-header_line :
    (fields : Fields) → IsPlain fields → _read_headers (map header_line fields) ≡ some fields
unfolding _read_headers read_from
_read_headers-header_line fields h = read_from-header_line [] fields h
