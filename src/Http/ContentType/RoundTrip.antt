-- ===== src/Http/ContentType/RoundTrip.antt =====
-- A content type that is assembled is parsed to its parts.
use middle_man.Base.{
  ℕ, ◌≡◌, refl, ◌∙◌, ap, sym, Bool, true, false, not, ◌&&◌, Option, none, some, [], ◌∷◌, ◌++◌, map,
  append_assoc, append-nil, ◌==◌, arith,
}
use middle_man.Http.Text.{Bytes, codes, bytes_eq, strip, join}
use middle_man.Net.Check.{split_on}
use middle_man.Net.Hostport.{all_of}
use middle_man.Http.ContentType.{
  Parameters, split_once, set_parameter, parts_of, read_clauses, parameters_of, parse_content_type,
  pair_text, assemble_content_type,
}

abbrev pub is_not : ℕ → ℕ → Bool
is_not sep c = not (c == sep)

split_once-append :
    (sep : ℕ) (s rest : Bytes)
    → all_of (is_not sep) s ≡ true
    → split_once sep (s ++ sep ∷ rest) ≡ some (s, rest)
unfolding split_once
split_once-append sep [] rest h = let here : (sep == sep) ≡ true = ground arith in rw here refl
split_once-append sep (c ∷ s) rest h =
    let here : (c == sep) ≡ false = ground (arith, h) in
    rw (here, split_once-append sep s rest (ground (arith, h))) refl

split_once-none : (sep : ℕ) (s : Bytes) → all_of (is_not sep) s ≡ true → split_once sep s ≡ none
unfolding split_once
split_once-none sep [] h = refl
split_once-none sep (c ∷ s) h =
    let here : (c == sep) ≡ false = ground (arith, h) in
    rw (here, split_once-none sep s (ground (arith, h))) refl

split_on-append :
    (sep : ℕ) (s rest : Bytes)
    → all_of (is_not sep) s ≡ true
    → split_on sep (s ++ sep ∷ rest) ≡ s ∷ split_on sep rest
unfolding split_on
split_on-append sep [] rest h = let here : (sep == sep) ≡ true = ground arith in rw here refl
split_on-append sep (c ∷ s) rest h =
    let here : (c == sep) ≡ false = ground (arith, h) in
    rw (here, split_on-append sep s rest (ground (arith, h))) refl

split_on-all : (sep : ℕ) (s : Bytes) → all_of (is_not sep) s ≡ true → split_on sep s ≡ s ∷ []
unfolding split_on
split_on-all sep [] h = refl
split_on-all sep (c ∷ s) h =
    let here : (c == sep) ≡ false = ground (arith, h) in
    rw (here, split_on-all sep s (ground (arith, h))) refl

abbrev pub is_fresh : Bytes → Parameters → Bool
is_fresh key [] = true
is_fresh key ((k, v) ∷ d) = not (bytes_eq k key) && is_fresh key d

set_parameter-fresh :
    (key value : Bytes) (d : Parameters)
    → is_fresh key d ≡ true
    → set_parameter key value d ≡ d ++ (key, value) ∷ []
unfolding set_parameter
set_parameter-fresh key value [] h = refl
set_parameter-fresh key value ((k, v) ∷ d) h =
    let here : bytes_eq k key ≡ false = ground (arith, h) in
    rw (here, set_parameter-fresh key value d (ground (arith, h))) refl

module _ (lower_str : Bytes → Bytes) (is_blank : ℕ → Bool) (blank : is_blank b' ' ≡ true) where
  -- parameters that no separator or blank around them spoils, with distinct names, behind others
  abbrev pub IsClean : Parameters → Parameters → Type 0
  IsClean d [] = Unit
  IsClean d ((k, v) ∷ parameters) =
      (((all_of (is_not b'=') k ≡ true) × (all_of (is_not b';') (k ++ b'=' ∷ v) ≡ true))
        × ((strip is_blank k ≡ k) × (strip is_blank v ≡ v)))
      × ((is_fresh k d ≡ true) × IsClean (d ++ (k, v) ∷ []) parameters)

  abbrev clause : Bytes × Bytes → Bytes
  clause parameter = b' ' ∷ pair_text parameter

  strip-blank : (k : Bytes) → strip is_blank (b' ' ∷ k) ≡ strip is_blank k
  unfolding strip
  strip-blank k = rw (strip, blank) refl

  read_clauses-clause :
      (d parameters : Parameters)
      → IsClean d parameters
      → read_clauses lower_str is_blank d (map clause parameters) ≡ d ++ parameters
  unfolding read_clauses
  read_clauses-clause d [] h = sym (append-nil d)
  read_clauses-clause d ((k, v) ∷ parameters) h =
      let split = split_once-append b'=' (b' ' ∷ k) v h.0.0.0 in
      rw (read_clauses, split)
        (ap (λ d. read_clauses lower_str is_blank d (map clause parameters))
            (ap (λ k. set_parameter k (strip is_blank v) d) (strip-blank k ∙ h.0.1.0)
              ∙ ap (λ v. set_parameter k v d) h.0.1.1
              ∙ set_parameter-fresh k v d h.1.0)
          ∙ read_clauses-clause (d ++ (k, v) ∷ []) parameters h.1.1
          ∙ append_assoc d ((k, v) ∷ []) parameters)

  split_on-join :
      (d : Parameters) (parameter : Bytes × Bytes) (parameters : Parameters)
      → IsClean d (parameter ∷ parameters)
      → split_on b';' (b' ' ∷ join (codes "; ") (map pair_text (parameter ∷ parameters)))
        ≡ map clause (parameter ∷ parameters)
  unfolding join
  split_on-join d (k, v) [] h = split_on-all b';' (b' ' ∷ k ++ b'=' ∷ v) h.0.0.1
  split_on-join d (k, v) (next ∷ parameters) h =
      split_on-append b';' (b' ' ∷ k ++ b'=' ∷ v)
        (b' ' ∷ join (codes "; ") (map pair_text (next ∷ parameters))) h.0.0.1
      ∙ ap (λ rest. clause (k, v) ∷ rest) (split_on-join (d ++ (k, v) ∷ []) next parameters h.1.1)

  parse-parts :
      (c type subtype : Bytes) (text : Option Bytes)
      → parts_of c (split_once b';' c) ≡ (type ++ b'/' ∷ subtype, text)
      → all_of (is_not b'/') type ≡ true
      → parse_content_type lower_str is_blank c
        ≡ some (lower_str type, (lower_str subtype, parameters_of lower_str is_blank text))
  unfolding parse_content_type
  parse-parts c type subtype text e h =
      ap {A = Bytes × Option Bytes}
        (λ parts. elim (split_once b'/' parts.0) as (λ o. Option (Bytes × (Bytes × Parameters))) [
          | none ↦ none
          | some ts ↦
              some (lower_str ts.0, (lower_str ts.1, parameters_of lower_str is_blank parts.1))
        ])
        e
      ∙ rw (split_once-append b'/' type subtype h) refl

  -- A content type that is assembled from a type, a subtype and parameters with distinct names, none of
  -- which has a separator in it or blanks around it, is parsed to the same, the types in lower case.
  pub parse-assemble_content_type :
      (type subtype : Bytes) (parameters : Parameters)
      → all_of (is_not b'/') type ≡ true
      → all_of (is_not b';') (type ++ b'/' ∷ subtype) ≡ true
      → IsClean [] parameters
      → parse_content_type lower_str is_blank (assemble_content_type type subtype parameters)
        ≡ some (lower_str type, (lower_str subtype, parameters))
  unfolding assemble_content_type parameters_of
  parse-assemble_content_type type subtype [] h e clean =
      parse-parts (type ++ b'/' ∷ subtype) type subtype none
        (ap (parts_of (type ++ b'/' ∷ subtype)) (split_once-none b';' (type ++ b'/' ∷ subtype) e)) h
  parse-assemble_content_type type subtype (parameter ∷ parameters) h e clean =
      let text = b' ' ∷ join (codes "; ") (map pair_text (parameter ∷ parameters)) in
      let c = type ++ b'/' ∷ (subtype ++ b';' ∷ text) in
      let split : split_once b';' c ≡ some (type ++ b'/' ∷ subtype, text) =
        ap (split_once b';') (sym (append_assoc type (b'/' ∷ subtype) (b';' ∷ text)))
        ∙ split_once-append b';' (type ++ b'/' ∷ subtype) text e in
      parse-parts c type subtype (some text) (ap (parts_of c) split) h
      ∙ ap (λ d. some (lower_str type, (lower_str subtype, d)))
          (ap (read_clauses lower_str is_blank []) (split_on-join [] parameter parameters clean)
            ∙ read_clauses-clause [] (parameter ∷ parameters) clean)
