-- ===== src/Http/Content/Tests.antt =====
-- Contents of messages, with compressors that put a byte in front.
use middle_man.Base.{
  Bool, ℕ, ◌≡◌, refl, true, Option, none, some, List, [], ◌∷◌, arith, ◌==◌, ◌&&◌, ◌||◌, ◌++◌,
  if◌then◌else◌,
}
use middle_man.Http.Text.{is_ascii, Bytes, codes, bytes_eq, lower}
use middle_man.Http.Encoding.{
  Content, bytes, str, Outcome, ok, value_error, type_error, Codecs, identity, gzip, deflate,
  brotli, zstd,
}
use middle_man.Http.Encoding.Cache.{Inverts}
use middle_man.Http.Encoding.Calls.{Call, decodes, encodes, results, AllRight, results-AllRight}
use middle_man.Http.Content.{Message, bad_value, bad_type, set_content, decode, encode}
use middle_man.Http.Assemble.{is_in}
use middle_man.Http.ContentType.{parse_content_type}
use middle_man.Http.Encoding.{encode_as, decode_as}
use middle_man.Http.Content.{done}
use middle_man.Http.Content.Coding.{IsCoded, with_encoding, encode-IsCoded}
use middle_man.Http.Content.Text.{raised, Python, infer, set_text, get_text}
use middle_man.Http.Content.Text.RoundTrip.{charset, KeptText, set_text-KeptText}
use middle_man.Http.Content.RoundTrip.{Reads, Kept, set_content-Kept}

abbrev as_is : Bytes → List ℕ
as_is s = s

abbrev open_with : ℕ → Bytes → Option Bytes
open_with mark [] = none
open_with mark (c ∷ b) = if c == mark then some b else none

-- a registry with latin-1, and utf8 for texts of ASCII characters
abbrev takes : Bytes → Bytes → Bool
takes name s = bytes_eq name (codes "latin-1") || (bytes_eq name (codes "utf8") && is_ascii s)

abbrev is_known : Bytes → Bool
is_known name = bytes_eq name (codes "latin-1") || bytes_eq name (codes "utf8")

abbrev text_decode : Bytes → Bytes → Content → Outcome Content
text_decode name errors (bytes b) = if takes name b then ok (str b) else value_error
text_decode name errors (str s) = type_error

abbrev text_encode : Bytes → Bytes → Content → Outcome Content
text_encode name errors (bytes b) = if is_known name then type_error else value_error
text_encode name errors (str s) = if takes name s then ok (bytes s) else value_error

abbrev marks : Codecs
marks = record {
  lower_str = lower;
  gzip_read = open_with 1;
  gzip_write = λ b. 1 ∷ b;
  brotli_decompress = open_with 2;
  brotli_compress = λ b. 2 ∷ b;
  zstd_read = open_with 3;
  zstd_compress = λ b. 3 ∷ b;
  zlib_decompress = open_with 4;
  zlib_decompress_raw = open_with 5;
  zlib_compress = λ b. 4 ∷ b;
  codecs_decode = text_decode;
  codecs_encode = text_encode;
}

marks-Inverts : Inverts marks
marks-Inverts identity b h = absurd (ground (arith, h))
marks-Inverts gzip b h = (refl, refl)
marks-Inverts deflate b h = (refl, refl)
marks-Inverts brotli b h = (refl, refl)
marks-Inverts zstd b h = (refl, refl)

marks-Reads : (b : Bytes) → Reads as_is marks (bytes b)
marks-Reads b name encoded e = absurd (ground (arith, e))

lower-identity : lower (codes "identity") ≡ codes "identity"
unfolding lower
lower-identity = refl

-- the second call finds what the first has left, the last has another encoding
abbrev calls : List Call
calls =
    encodes (bytes (codes "hi")) (codes "GZIP") (codes "strict")
    ∷ decodes (bytes (1 ∷ codes "hi")) (codes "gzip") (codes "strict")
    ∷ decodes (bytes (1 ∷ codes "hi")) (codes "br") (codes "strict")
    ∷ []

test_calls :
    results marks calls none
    ≡ ok (bytes (1 ∷ codes "hi")) ∷ ok (bytes (codes "hi")) ∷ value_error ∷ []
unfolding results lower
test_calls = refl

results-AllRight_example : AllRight marks calls (results marks calls none)
results-AllRight_example = results-AllRight marks calls marks-Inverts

abbrev zipped : Message
zipped = record { headers = (codes "Content-Encoding", codes "gzip") ∷ []; raw_content = none }

set_content-Kept_example :
    Kept as_is marks
      (codes "hello")
      zipped
      (set_content as_is marks (some (bytes (codes "hello"))) zipped none)
set_content-Kept_example =
    set_content-Kept as_is marks (codes "hello") zipped none marks-Inverts
      (marks-Reads (codes "hello")) lower-identity tt

test_length :
    (set_content as_is marks (some (bytes (codes "hello"))) zipped none).message.headers
    ≡ (codes "Content-Encoding", codes "gzip") ∷ (codes "content-length", codes "6") ∷ []
unfolding set_content lower
test_length = refl

-- an encoding of texts: the TypeError comes through, and the header stays
abbrev texts : Message
texts = record {
  headers = (codes "Content-Encoding", codes "utf8") ∷ [];
  raw_content = some (bytes (codes "x"));
}

test_texts : (set_content as_is marks (some (bytes (codes "hello"))) texts none).ended ≡ bad_type
unfolding set_content lower
test_texts = refl

test_decode :
    (decode as_is marks true
      (record { headers = zipped.headers; raw_content = some (bytes (1 ∷ codes "hello")) })
      none).message.raw_content
    ≡ some (bytes (codes "hello"))
unfolding decode lower
test_decode = refl

test_encode : (encode as_is marks some (codes "unknown") texts none).ended ≡ bad_value
unfolding encode lower
test_encode = refl

abbrev python : Python
python = record {
  native = as_is;
  always_bytes = some;
  is_blank = λ c. c == 32;
  patterns = record {
    meta_charset = λ b. if is_in (codes "<meta charset=utf8") b then some (codes "utf8") else none;
    css_charset = λ b. none;
  };
  codecs = marks;
}

abbrev typed : Message
typed = record {
  headers =
      (codes "Content-Type", codes "text/html; charset=latin-1")
      ∷ (codes "Content-Encoding", codes "gzip")
      ∷ [];
  raw_content = none;
}

abbrev accented : Bytes
accented = codes "<meta charset=utf8>" ++ 233 ∷ []

typed_charset : charset python (typed.headers) ≡ codes "latin-1"
unfolding infer parse_content_type lower
typed_charset = refl

typed_infer : infer python (typed.headers) (bytes []) ≡ ok (codes "latin-1")
unfolding infer lower
typed_infer = refl

latin_encode :
    encode_as marks (lower (codes "latin-1")) (codes "strict") (str accented) ≡ ok (bytes accented)
unfolding encode_as lower
latin_encode = refl

latin_decode :
    decode_as marks (lower (codes "latin-1")) (codes "strict") (bytes accented) ≡ ok (str accented)
unfolding decode_as lower
latin_decode = refl

set_text-KeptText_example :
    KeptText python accented accented typed (set_text python (some accented) typed none)
set_text-KeptText_example =
    set_text-KeptText python accented accented (codes "latin-1") typed none marks-Inverts
      (marks-Reads accented) lower-identity tt (rw typed_charset refl) typed_infer latin_encode
      latin_decode

-- without a charset in the header, the text is written in latin-1 and read in the charset of the body
abbrev untyped : Message
untyped = record { headers = (codes "Content-Type", codes "text/html") ∷ []; raw_content = none }

test_meta :
    (let run = set_text python (some accented) untyped none in
      (get_text python true (run.message) (run.cache)).0)
    ≡ raised bad_value
unfolding set_text get_text lower is_ascii
test_meta = refl

encode-IsCoded_example :
    IsCoded as_is marks
      (codes "x")
      (with_encoding as_is marks (codes "br") (texts.headers))
      (encode as_is marks some (codes "br") texts none)
encode-IsCoded_example =
    encode-IsCoded as_is marks some (codes "br") (codes "br") (codes "x") texts none marks-Inverts
      (marks-Reads (codes "x")) lower-identity tt refl refl

test_coded : (encode as_is marks some (codes "br") texts none).ended ≡ done
unfolding encode lower
test_coded = refl
