-- ===== src/Http/Validate.antt =====
-- mitmproxy/net/http/validate.py
use middle_man.Base.{
  ℕ, Bool, true, false, not, ◌&&◌, ◌||◌, Option, none, some, List, [], ◌∷◌, ◌++◌, leb, ◌==◌,
  if◌then◌else◌,
}
use middle_man.Http.Text.{Bytes, codes, bytes_eq, lower, is_ascii, is_digit, all_digits, to_int}
use middle_man.Http.Headers.{Fields}

-- the members of `TransferEncoding`
pub data TransferEncoding : Type 0 where
  chunked compress_chunked deflate_chunked gzip_chunked : TransferEncoding
  compress deflate gzip identity : TransferEncoding

-- the set `_HTTP_1_1_TRANSFER_ENCODINGS`
unfoldable pub encoding_of : Bytes → Option TransferEncoding
encoding_of te =
    if bytes_eq te (codes "chunked")
    then some chunked
    else if bytes_eq te (codes "compress,chunked")
    then some compress_chunked
    else if bytes_eq te (codes "deflate,chunked")
    then some deflate_chunked
    else if bytes_eq te (codes "gzip,chunked")
    then some gzip_chunked
    else if bytes_eq te (codes "compress")
    then some compress
    else if bytes_eq te (codes "deflate")
    then some deflate
    else if bytes_eq te (codes "gzip")
    then some gzip
    else if bytes_eq te (codes "identity")
    then some identity
    else none

-- A text that a pattern ending in `$` reads: `$` also matches before a line feed at the end.
abbrev pub chomp : Bytes → Bytes
chomp [] = []
chomp (c ∷ []) = if c == 10 then [] else c ∷ []
chomp (c ∷ d ∷ s) = c ∷ chomp (d ∷ s)

-- `^(?:0|[1-9][0-9]*)$`, on a text without the line feed
abbrev pub is_length : Bytes → Bool
is_length [] = false
is_length (c ∷ s) = if c == b'0' then bytes_eq s [] else is_digit c && all_digits s

-- `parse_content_length`, with `none` for the ValueError; `int` ignores the line feed
unfoldable pub parse_content_length : Bytes → Option ℕ
parse_content_length value = if is_length (chomp value) then some (to_int 0 (chomp value)) else none

abbrev pub is_blank : ℕ → Bool
is_blank c = c == 9 || c == 32

-- `re.sub(r"[\t ]*,[\t ]*", ",", te)`: blanks wait until it is known that no comma follows, and are
-- skipped behind a comma
unfoldable pub tighten : Bytes → Bool → Bytes → Bytes
tighten blanks after_comma [] = blanks
tighten blanks after_comma (c ∷ s) =
    let comma = c ∷ tighten [] true s in
    let blank = tighten (if after_comma then [] else blanks ++ c ∷ []) after_comma s in
    let other = blanks ++ c ∷ tighten [] false s in
    if c == b',' then comma else if is_blank c then blank else other

-- `parse_transfer_encoding`, with `none` for the ValueError
unfoldable pub parse_transfer_encoding : Bytes → Option TransferEncoding
unfolding tighten encoding_of
parse_transfer_encoding value =
    if is_ascii value then encoding_of (tighten [] false (lower value)) else none

-- the characters of `_valid_header_name`
unfoldable pub is_token : ℕ → Bool
is_token c =
    (leb b'0' c && leb c b'9')
    || (leb b'a' c && leb c b'z')
    || (leb b'A' c && leb c b'Z')
    || c == b'!'
    || (leb b'#' c && leb c b'\'')
    || c == b'*'
    || c == b'+'
    || c == b'-'
    || c == b'.'
    || c == b'^'
    || c == b'_'
    || c == b'`'
    || c == b'|'
    || c == b'~'

abbrev pub all_tokens : Bytes → Bool
all_tokens [] = true
all_tokens (c ∷ s) = is_token c && all_tokens s

unfoldable pub is_name : Bytes → Bool
unfolding is_token
is_name name = not (bytes_eq (chomp name) []) && all_tokens (chomp name)

-- what `validate_headers` reads of a message: a request, or a response with its status code
pub data Kind : Type 0 where
  request : Kind
  response : ℕ → Kind

-- the two lists that the loop over the fields collects, with `none` for an invalid name
unfoldable pub collect : Bytes → Fields → Option (List Bytes)
unfolding is_name
collect wanted [] = some []
collect wanted ((name, value) ∷ fields) = elim (collect wanted fields) [
  | none ↦ none
  | some values ↦
      if is_name name
      then some (if bytes_eq (lower name) wanted then value ∷ values else values)
      else none
]

-- whether the encoding may stand in a message of the kind
unfoldable pub allows : Kind → TransferEncoding → Bool
allows (response status) te = true
allows request chunked = true
allows request compress_chunked = true
allows request deflate_chunked = true
allows request gzip_chunked = true
allows request _ = false

-- `100 <= status_code <= 199 or status_code == 204`
unfoldable pub forbids : Kind → Bool
forbids request = false
forbids (response status) = (leb 100 status && leb status 199) || status == 204

-- the checks of the transfer-encoding headers, with their values
unfoldable pub check_te : Kind → Bool → List Bytes → Bool
unfolding allows forbids
check_te kind is_http11 (te ∷ []) =
    is_http11
    && not (forbids kind)
    && elim (parse_transfer_encoding te) [ none ↦ false | some e ↦ allows kind e ]
check_te kind is_http11 _ = false

-- the check of the content-length headers
unfoldable pub check_cl : List Bytes → Bool
check_cl (cl ∷ []) = elim (parse_content_length cl) [ none ↦ false | some n ↦ true ]
check_cl _ = false

-- the branches behind the loop
unfoldable pub check_both : Kind → Bool → List Bytes → List Bytes → Bool
unfolding check_te check_cl
check_both kind is_http11 [] [] = true
check_both kind is_http11 (te ∷ tes) (cl ∷ cls) = false
check_both kind is_http11 (te ∷ tes) [] = check_te kind is_http11 (te ∷ tes)
check_both kind is_http11 [] (cl ∷ cls) = check_cl (cl ∷ cls)

-- `validate_headers`: whether it returns without a ValueError
unfoldable pub validate_headers : Kind → Bool → Fields → Bool
unfolding collect check_both
validate_headers kind is_http11 fields = elim (collect (codes "transfer-encoding") fields) [
  | none ↦ false
  | some te ↦ elim (collect (codes "content-length") fields) [
    | none ↦ false
    | some cl ↦ check_both kind is_http11 te cl
  ]
]
