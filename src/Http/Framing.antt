-- ===== src/Http/Framing.antt =====
-- A message that `validate_headers` accepts has a body of a known extent.
use middle_man.Base.{
  ℕ, ◌≡◌, refl, Bool, true, false, Option, none, some, List, [], ◌∷◌, arith, inl, inr, Bool-cases,
  Option-cases,
}
use middle_man.Multidict
use middle_man.Http.Text.{Bytes, codes, bytes_eq, bytes_eq_iff, lower, is_ascii, all_digits, join}
use middle_man.Http.Headers.{Fields, raw_all, get_all, get}
use middle_man.Http.Validate.{
  TransferEncoding, chunked, compress_chunked, deflate_chunked, gzip_chunked, compress, deflate,
  gzip, identity, parse_transfer_encoding, parse_content_length, chomp, is_length, Kind, request,
  response, collect, allows, check_te, check_cl, check_both, validate_headers,
}
use middle_man.Http.Body.{
  BodySize, unknown, until_close, exact, invalid, size_by_length, size_unchunked, size_by_encoding,
  size_by_fields, is_bodiless, expected_http_body_size,
}

values_of-collect :
    (wanted : Bytes) (fields : Fields) (values : List Bytes)
    → collect wanted fields ≡ some values
    → Multidict.values_of bytes_eq lower wanted fields ≡ values
unfolding collect Multidict.values_of
values_of-collect wanted [] values h = cc
values_of-collect wanted ((name, value) ∷ fields) values h =
    elim (Option-cases (collect wanted fields)) [
      | inl e ↦ ground (arith, h, e)
      | inr (vs, e) ↦ ground (arith, h, e, values_of-collect wanted fields vs e)
    ]

all_digits-is_ascii : (s : Bytes) → all_digits (chomp s) ≡ true → is_ascii s ≡ true
unfolding is_ascii
all_digits-is_ascii [] h = refl
all_digits-is_ascii (c ∷ []) h = ground (arith, h)
all_digits-is_ascii (c ∷ d ∷ s) h = ground (arith, h, all_digits-is_ascii (d ∷ s))

is_length-is_ascii : (s : Bytes) → is_length (chomp s) ≡ true → is_ascii s ≡ true
unfolding is_ascii
is_length-is_ascii [] h = refl
is_length-is_ascii (c ∷ []) h = ground (arith, h)
is_length-is_ascii (c ∷ d ∷ s) h =
    ground (arith, h, all_digits-is_ascii (d ∷ s), bytes_eq_iff (chomp (d ∷ s)) [])

parse-is_ascii :
    (te : Bytes) (e : TransferEncoding) → parse_transfer_encoding te ≡ some e → is_ascii te ≡ true
unfolding parse_transfer_encoding
parse-is_ascii te e h = ground (arith, h)

parse-is_length : (cl : Bytes) (n : ℕ) → parse_content_length cl ≡ some n → is_ascii cl ≡ true
unfolding parse_content_length
parse-is_length cl n h = is_length-is_ascii cl (ground (arith, h))

-- sizes that a message may have: a request's is not read until the connection closes
abbrev pub IsFramed : Kind → BodySize → Type 0
IsFramed kind unknown = Unit
IsFramed kind (exact n) = Unit
IsFramed request until_close = ⊥
IsFramed (response status) until_close = Unit
IsFramed kind invalid = ⊥

is_response : Kind → Bool
is_response request = false
is_response (response status) = true

abbrev pub status_of : Kind → Option ℕ
status_of request = none
status_of (response status) = some status

module _ (native : Bytes → List ℕ)
    (native_ascii : (s : Bytes) → is_ascii s ≡ true → native s ≡ s) where
  -- what `get` gives for a name that `validate_headers` has looked up
  get-none :
      (name : Bytes) (fields : Fields)
      → Multidict.values_of bytes_eq lower (lower name) fields ≡ []
      → get native name fields ≡ none
  unfolding get get_all raw_all Multidict.get_all
  get-none name fields h = rw (h, get) refl

  get-some :
      (name : Bytes) (fields : Fields) (v : Bytes)
      → Multidict.values_of bytes_eq lower (lower name) fields ≡ v ∷ []
      → is_ascii v ≡ true
      → get native name fields ≡ some v
  unfolding get get_all join raw_all Multidict.get_all
  get-some name fields v h ascii = rw (h, get, native_ascii v ascii) refl

  size_by_encoding-IsFramed :
      (kind : Kind) (fields : Fields) (e : TransferEncoding)
      → allows kind e ≡ true
      → IsFramed kind (size_by_encoding native (is_response kind) fields (some e))
  unfolding size_by_encoding size_unchunked allows is_response
  size_by_encoding-IsFramed request fields chunked h = tt
  size_by_encoding-IsFramed request fields compress_chunked h = tt
  size_by_encoding-IsFramed request fields deflate_chunked h = tt
  size_by_encoding-IsFramed request fields gzip_chunked h = tt
  size_by_encoding-IsFramed request fields compress h = ground (arith, h)
  size_by_encoding-IsFramed request fields deflate h = ground (arith, h)
  size_by_encoding-IsFramed request fields gzip h = ground (arith, h)
  size_by_encoding-IsFramed request fields identity h = ground (arith, h)
  size_by_encoding-IsFramed (response status) fields chunked h = tt
  size_by_encoding-IsFramed (response status) fields compress_chunked h = tt
  size_by_encoding-IsFramed (response status) fields deflate_chunked h = tt
  size_by_encoding-IsFramed (response status) fields gzip_chunked h = tt
  size_by_encoding-IsFramed (response status) fields compress h = tt
  size_by_encoding-IsFramed (response status) fields deflate h = tt
  size_by_encoding-IsFramed (response status) fields gzip h = tt
  size_by_encoding-IsFramed (response status) fields identity h = tt

  check_te-size :
      (kind : Kind) (is_http11 : Bool) (te : Bytes) (tes : List Bytes) (fields : Fields)
      → check_te kind is_http11 (te ∷ tes) ≡ true
      → Multidict.values_of bytes_eq lower (codes "transfer-encoding") fields ≡ te ∷ tes
      → IsFramed kind (size_by_fields native (is_response kind) fields)
  unfolding check_te size_by_fields
  check_te-size kind is_http11 te (te' ∷ tes) fields h read = ground (arith, h)
  check_te-size kind is_http11 [] [] fields h read = ground (arith, h)
  check_te-size kind is_http11 (c ∷ te) [] fields h read =
      elim (Option-cases (parse_transfer_encoding (c ∷ te))) [
        | inl e ↦ ground (arith, h, e)
        | inr (t, e) ↦
            rw
              (
                get-some (codes "transfer-encoding") fields (c ∷ te) read
                    (parse-is_ascii (c ∷ te) t e),
                size_by_fields,
                e,
              )
              (size_by_encoding-IsFramed kind fields t (ground (arith, h, e)))
      ]

  check_cl-size :
      (kind : Kind) (cl : Bytes) (cls : List Bytes) (fields : Fields)
      → check_cl (cl ∷ cls) ≡ true
      → Multidict.values_of bytes_eq lower (codes "transfer-encoding") fields ≡ []
      → Multidict.values_of bytes_eq lower (codes "content-length") fields ≡ cl ∷ cls
      → IsFramed kind (size_by_fields native (is_response kind) fields)
  unfolding check_cl size_by_fields size_by_length
  check_cl-size kind cl (cl' ∷ cls) fields h none_te read = ground (arith, h)
  check_cl-size kind [] [] fields h none_te read = ground (arith, h)
  check_cl-size kind (c ∷ cl) [] fields h none_te read =
      elim (Option-cases (parse_content_length (c ∷ cl))) [
        | inl e ↦ ground (arith, h, e)
        | inr (n, e) ↦
            rw
              (
                get-none (codes "transfer-encoding") fields none_te,
                get-some (codes "content-length") fields (c ∷ cl) read
                    (parse-is_length (c ∷ cl) n e),
                size_by_fields,
                size_by_length,
                e,
              )
              tt
      ]

  no_fields-size :
      (kind : Kind) (fields : Fields)
      → Multidict.values_of bytes_eq lower (codes "transfer-encoding") fields ≡ []
      → Multidict.values_of bytes_eq lower (codes "content-length") fields ≡ []
      → IsFramed kind (size_by_fields native (is_response kind) fields)
  unfolding size_by_fields size_by_length is_response
  no_fields-size request fields none_te none_cl =
      rw
        (
          get-none (codes "transfer-encoding") fields none_te,
          get-none (codes "content-length") fields none_cl,
          size_by_fields,
          size_by_length,
        )
        tt
  no_fields-size (response status) fields none_te none_cl =
      rw
        (
          get-none (codes "transfer-encoding") fields none_te,
          get-none (codes "content-length") fields none_cl,
          size_by_fields,
          size_by_length,
        )
        tt

  check_both-size :
      (kind : Kind) (is_http11 : Bool) (te cl : List Bytes) (fields : Fields)
      → check_both kind is_http11 te cl ≡ true
      → Multidict.values_of bytes_eq lower (codes "transfer-encoding") fields ≡ te
      → Multidict.values_of bytes_eq lower (codes "content-length") fields ≡ cl
      → IsFramed kind (size_by_fields native (is_response kind) fields)
  unfolding check_both
  check_both-size kind is_http11 [] [] fields h te cl = no_fields-size kind fields te cl
  check_both-size kind is_http11 (t ∷ ts) (c ∷ cs) fields h te cl = ground (arith, h)
  check_both-size kind is_http11 (t ∷ ts) [] fields h te cl =
      check_te-size kind is_http11 t ts fields h te
  check_both-size kind is_http11 [] (c ∷ cs) fields h te cl = check_cl-size kind c cs fields h te cl

  validated-size :
      (kind : Kind) (is_http11 : Bool) (fields : Fields)
      → validate_headers kind is_http11 fields ≡ true
      → IsFramed kind (size_by_fields native (is_response kind) fields)
  unfolding validate_headers
  validated-size kind is_http11 fields h =
      elim (Option-cases (collect (codes "transfer-encoding") fields)) [
        | inl e ↦ ground (arith, h, e)
        | inr (te, e) ↦ elim (Option-cases (collect (codes "content-length") fields)) [
          | inl e' ↦ ground (arith, h, e, e')
          | inr (cl, e') ↦
              check_both-size kind is_http11 te cl fields (ground (arith, h, e, e'))
                (values_of-collect (codes "transfer-encoding") fields te e)
                (values_of-collect (codes "content-length") fields cl e')
        ]
      ]

  -- When `validate_headers` accepts a message, and decoding leaves ASCII texts, then
  -- `expected_http_body_size` raises no ValueError for it, and the body of a request does not last
  -- until the connection is closed: it is chunked or has an exact length.
  pub expected_http_body_size-IsFramed :
      (kind : Kind) (is_http11 : Bool) (method : Bytes) (fields : Fields)
      → validate_headers kind is_http11 fields ≡ true
      → IsFramed kind (expected_http_body_size native method (status_of kind) fields)
  unfolding expected_http_body_size is_response
  expected_http_body_size-IsFramed request is_http11 method fields h =
      validated-size request is_http11 fields h
  expected_http_body_size-IsFramed (response status) is_http11 method fields h =
      elim (Bool-cases (is_bodiless method status)) [
        | inl e ↦ rw (e, expected_http_body_size) tt
        | inr e ↦
            rw (e, expected_http_body_size) (validated-size (response status) is_http11 fields h)
      ]
