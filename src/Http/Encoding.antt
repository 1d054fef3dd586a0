-- ===== src/Http/Encoding.antt =====
-- mitmproxy/net/encoding.py: the content encodings and their shared cache of one element. The libraries
-- that compress, and Python's registry of codecs, are the record `Codecs`.
pub mod Cache
pub mod Calls
use middle_man.Base.{ℕ, Bool, true, false, ◌&&◌, ◌||◌, Option, none, some, [], ◌∷◌, if◌then◌else◌}
use middle_man.Http.Text.{Bytes, codes, bytes_eq}

-- bytes or a str
pub data Content : Type 0 where
  bytes str : Bytes → Content

abbrev pub same_content : Content → Content → Bool
same_content (bytes a) (bytes b) = bytes_eq a b
same_content (str a) (str b) = bytes_eq a b
same_content _ _ = false

abbrev pub is_bytes : Content → Bool
is_bytes (bytes b) = true
is_bytes (str s) = false

-- how a call ends: with a result, the ValueError that the module raises for other exceptions, or a TypeError
pub data Outcome (A : Type 0) : Type 0 where
  ok : A → Outcome A
  value_error type_error : Outcome A

-- what the libraries do with bytes, with `none` for an exception, and `codecs.decode` and `codecs.encode`
-- with the name and the errors argument
pub record Codecs : Type 0 where
  pub lower_str : Bytes → Bytes
  pub gzip_read : Bytes → Option Bytes
  pub gzip_write : Bytes → Bytes
  pub brotli_decompress : Bytes → Option Bytes
  pub brotli_compress : Bytes → Bytes
  pub zstd_read : Bytes → Option Bytes
  pub zstd_compress : Bytes → Bytes
  pub zlib_decompress : Bytes → Option Bytes
  pub zlib_decompress_raw : Bytes → Option Bytes
  pub zlib_compress : Bytes → Bytes
  pub codecs_decode : Bytes → Bytes → Content → Outcome Content
  pub codecs_encode : Bytes → Bytes → Content → Outcome Content

-- the functions of `custom_decode` and `custom_encode`
pub data Coder : Type 0 where
  identity gzip deflate brotli zstd : Coder

unfoldable pub custom : Bytes → Option Coder
custom encoding =
    if bytes_eq encoding (codes "none") || bytes_eq encoding (codes "identity")
    then some identity
    else if bytes_eq encoding (codes "gzip")
    then some gzip
    else if bytes_eq encoding (codes "deflate") || bytes_eq encoding (codes "deflateraw")
    then some deflate
    else if bytes_eq encoding (codes "br")
    then some brotli
    else if bytes_eq encoding (codes "zstd")
    then some zstd
    else none

-- `encoding in ("gzip", "deflate", "deflateraw", "br", "zstd")`
abbrev pub is_cached_name : Option Coder → Bool
is_cached_name none = false
is_cached_name (some identity) = false
is_cached_name (some gzip) = true
is_cached_name (some deflate) = true
is_cached_name (some brotli) = true
is_cached_name (some zstd) = true

-- an exception of a library becomes a ValueError
abbrev pub or_error : Option Bytes → Outcome Content
or_error none = value_error
or_error (some b) = ok (bytes b)

-- `CachedDecode`
pub record CachedDecode : Type 0 where
  pub encoded : Content
  pub encoding : Bytes
  pub errors : Bytes
  pub decoded : Content

-- `_cache`, at first without an element
abbrev pub Cache : Type 0
Cache = Option CachedDecode

abbrev pub is_for : Bytes → Bytes → CachedDecode → Bool
is_for encoding errors entry = bytes_eq (entry.encoding) encoding && bytes_eq (entry.errors) errors

-- the content that the cache has for some encoded or decoded content
abbrev pub decoded_of : Cache → Bytes → Bytes → Content → Option Content
decoded_of none encoding errors encoded = none
decoded_of (some entry) encoding errors encoded =
    if is_bytes encoded && same_content (entry.encoded) encoded && is_for encoding errors entry
    then some (entry.decoded)
    else none

abbrev pub encoded_of : Cache → Bytes → Bytes → Content → Option Content
encoded_of none encoding errors decoded = none
encoded_of (some entry) encoding errors decoded =
    if is_bytes decoded && same_content (entry.decoded) decoded && is_for encoding errors entry
    then some (entry.encoded)
    else none

-- the cache behind a result
abbrev pub store : Bytes → CachedDecode → Cache → Cache
store encoding entry cache = if is_cached_name (custom encoding) then some entry else cache

abbrev pub store_decoded : Bytes → Bytes → Content → Cache → Outcome Content → Cache
store_decoded encoding errors encoded cache (ok decoded) =
    store encoding
      (record { encoded = encoded; encoding = encoding; errors = errors; decoded = decoded }) cache
store_decoded encoding errors encoded cache _ = cache

abbrev pub store_encoded : Bytes → Bytes → Content → Cache → Outcome Content → Cache
store_encoded encoding errors decoded cache (ok encoded) =
    store encoding
      (record { encoded = encoded; encoding = encoding; errors = errors; decoded = decoded }) cache
store_encoded encoding errors decoded cache _ = cache

module _ (codecs : Codecs) where
  -- `decode_deflate`: without a header when the first attempt fails
  abbrev pub inflate : Bytes → Option Bytes
  inflate b = elim (codecs.zlib_decompress b) [
    | none ↦ codecs.zlib_decompress_raw b
    | some d ↦ some d
  ]

  -- the library's part of a decoder
  abbrev pub decompress : Coder → Bytes → Option Bytes
  decompress identity b = some b
  decompress gzip b = codecs.gzip_read b
  decompress deflate b = inflate b
  decompress brotli b = codecs.brotli_decompress b
  decompress zstd b = codecs.zstd_read b

  abbrev pub compress : Coder → Bytes → Bytes
  compress identity b = b
  compress gzip b = codecs.gzip_write b
  compress deflate b = codecs.zlib_compress b
  compress brotli b = codecs.brotli_compress b
  compress zstd b = codecs.zstd_compress b

  -- `custom_decode[encoding](encoded)`; nothing but `identity` takes a str that is not empty
  unfoldable pub custom_decode : Coder → Content → Outcome Content
  custom_decode identity content = ok content
  custom_decode coder (bytes []) = ok (bytes [])
  custom_decode coder (bytes (c ∷ b)) = or_error (decompress coder (c ∷ b))
  custom_decode coder (str []) = ok (bytes [])
  custom_decode coder (str (c ∷ s)) = type_error

  unfoldable pub custom_encode : Coder → Content → Outcome Content
  custom_encode identity content = ok content
  custom_encode coder (bytes b) = ok (bytes (compress coder b))
  custom_encode coder (str s) = type_error

  -- what is computed without the cache, for a name in lower case
  unfoldable pub decode_as : Bytes → Bytes → Content → Outcome Content
  unfolding custom custom_decode
  decode_as encoding errors encoded = elim (custom encoding) [
    | none ↦ codecs.codecs_decode encoding errors encoded
    | some coder ↦ custom_decode coder encoded
  ]

  unfoldable pub encode_as : Bytes → Bytes → Content → Outcome Content
  unfolding custom custom_encode
  encode_as encoding errors decoded = elim (custom encoding) [
    | none ↦ codecs.codecs_encode encoding errors decoded
    | some coder ↦ custom_encode coder decoded
  ]

  -- `decode` and `encode` of content that is not None, with the cache before and after
  unfoldable pub decode : Content → Bytes → Bytes → Cache → Outcome Content × Cache
  unfolding decode_as custom
  decode encoded encoding errors cache =
      let name = codecs.lower_str encoding in
      elim (decoded_of cache name errors encoded) [
        | none ↦ (
          decode_as name errors encoded,
          store_decoded name errors encoded cache (decode_as name errors encoded),
        )
        | some decoded ↦ (ok decoded, cache)
      ]

  unfoldable pub encode : Content → Bytes → Bytes → Cache → Outcome Content × Cache
  unfolding encode_as custom
  encode decoded encoding errors cache =
      let name = codecs.lower_str encoding in
      elim (encoded_of cache name errors decoded) [
        | none ↦ (
          encode_as name errors decoded,
          store_encoded name errors decoded cache (encode_as name errors decoded),
        )
        | some encoded ↦ (ok encoded, cache)
      ]
