-- ===== src/Http/Body.antt =====
-- The length of a message's body and the end of its connection: `get_header_tokens`,
-- `connection_close` and `expected_http_body_size` of mitmproxy/net/http/http1/read.py.
use middle_man.Base.{
  ℕ, Bool, true, false, ◌&&◌, ◌||◌, Option, none, some, List, [], ◌∷◌, ◌++◌, leb, ◌==◌,
  if◌then◌else◌, map, any,
}
use middle_man.Http.Text.{Bytes, codes, bytes_eq, upper, strip}
use middle_man.Http.Headers.{Fields, in_headers, get}
use middle_man.Http.Validate.{
  TransferEncoding, chunked, compress_chunked, deflate_chunked, gzip_chunked, compress, deflate,
  gzip, identity, parse_transfer_encoding, parse_content_length,
}

-- the code points that `str.strip` removes
unfoldable pub is_space : ℕ → Bool
is_space c =
    (leb 9 c && leb c 13)
    || (leb 28 c && leb c 32)
    || c == 133
    || c == 160
    || c == 5760
    || (leb 8192 c && leb c 8202)
    || c == 8232
    || c == 8233
    || c == 8239
    || c == 8287
    || c == 12288

-- `split(",")`, with the characters since the last comma
unfoldable pub split_commas : Bytes → Bytes → List Bytes
split_commas before [] = before ∷ []
split_commas before (c ∷ s) =
    let comma = before ∷ split_commas [] s in
    let other = split_commas (before ++ c ∷ []) s in if c == b',' then comma else other

-- what the length of a body is expected to be: `None`, -1, a number, or the ValueError
pub data BodySize : Type 0 where
  unknown until_close : BodySize
  exact : ℕ → BodySize
  invalid : BodySize

abbrev pub size_of : Option ℕ → BodySize
size_of none = invalid
size_of (some n) = exact n

-- cases 1 and 2: responses without a body
unfoldable pub is_bodiless : Bytes → ℕ → Bool
unfolding upper
is_bodiless method status =
    bytes_eq (upper method) (codes "HEAD")
    || (leb 100 status && leb status 199)
    || status == 204
    || status == 304
    || (leb 200 status && leb status 299 && bytes_eq (upper method) (codes "CONNECT"))

module _ (native : Bytes → List ℕ) where
  unfoldable pub get_header_tokens : Bytes → Fields → List Bytes
  unfolding get strip split_commas is_space
  get_header_tokens key fields = elim (get native key fields) [
    | none ↦ []
    | some value ↦ map (strip is_space) (split_commas [] value)
  ]

  unfoldable pub connection_close : Bytes → Fields → Bool
  unfolding get_header_tokens in_headers
  connection_close http_version fields =
      let tokens = get_header_tokens (codes "connection") fields in
      let old =
        if bytes_eq http_version (codes "HTTP/1.1")
        then false
        else if bytes_eq http_version (codes "HTTP/2.0")
        then false
        else true in
      if in_headers (codes "connection") fields
      then (if any (bytes_eq (codes "close")) tokens
          then true
          else if any (bytes_eq (codes "keep-alive")) tokens
          then false
          else old)
      else old

  -- cases 4 to 7: the content-length header, or none
  unfoldable pub size_by_length : Bool → Fields → BodySize
  unfolding get parse_content_length
  size_by_length is_response fields = elim (get native (codes "content-length") fields) [
    | none ↦ if is_response then until_close else exact 0
    | some [] ↦ if is_response then until_close else exact 0
    | some (c ∷ cl) ↦ size_of (parse_content_length (c ∷ cl))
  ]

  -- case 3 with an encoding that does not end in chunked
  unfoldable pub size_unchunked : Bool → Bool → Fields → BodySize
  unfolding size_by_length in_headers
  size_unchunked is_response is_identity fields =
      if is_response
      then until_close
      else if is_identity
      then size_by_length is_response fields
      else if in_headers (codes "content-length") fields
      then size_by_length is_response fields
      else until_close

  -- the `match` of case 3
  unfoldable pub size_by_encoding : Bool → Fields → Option TransferEncoding → BodySize
  unfolding size_unchunked
  size_by_encoding is_response fields none = invalid
  size_by_encoding is_response fields (some chunked) = unknown
  size_by_encoding is_response fields (some compress_chunked) = unknown
  size_by_encoding is_response fields (some deflate_chunked) = unknown
  size_by_encoding is_response fields (some gzip_chunked) = unknown
  size_by_encoding is_response fields (some compress) = size_unchunked is_response false fields
  size_by_encoding is_response fields (some deflate) = size_unchunked is_response false fields
  size_by_encoding is_response fields (some gzip) = size_unchunked is_response false fields
  size_by_encoding is_response fields (some identity) = size_unchunked is_response true fields

  -- cases 3 to 7
  unfoldable pub size_by_fields : Bool → Fields → BodySize
  unfolding get parse_transfer_encoding size_by_encoding size_by_length
  size_by_fields is_response fields = elim (get native (codes "transfer-encoding") fields) [
    | none ↦ size_by_length is_response fields
    | some [] ↦ size_by_length is_response fields
    | some (c ∷ te) ↦ size_by_encoding is_response fields (parse_transfer_encoding (c ∷ te))
  ]

  -- `expected_http_body_size` of a request's method and the fields of the request, or of its
  -- response, whose status code is given
  unfoldable pub expected_http_body_size : Bytes → Option ℕ → Fields → BodySize
  unfolding is_bodiless size_by_fields
  expected_http_body_size method none fields = size_by_fields false fields
  expected_http_body_size method (some status) fields =
      if is_bodiless method status then exact 0 else size_by_fields true fields
