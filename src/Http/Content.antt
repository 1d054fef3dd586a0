-- ===== src/Http/Content.antt =====
-- The body of a message of mitmproxy/http.py behind its content-encoding: the methods of `Message` that
-- read and write it. `native` stands for decoding as UTF-8 with surrogate escapes, `always_bytes` for
-- the way back, with `none` for its UnicodeEncodeError; a call takes the shared cache of Encoding and returns it.
pub mod Lookups
pub mod RoundTrip
pub mod Effects
pub mod Coding
pub mod Text
mod Tests
use middle_man.Base.{ℕ, Bool, true, false, Option, none, some, List, [], ◌∷◌, if◌then◌else◌, length}
use middle_man.Http.Text.{Bytes, codes}
use middle_man.Http.Headers.{Fields, in_headers, get, set_all, del_item}
use middle_man.Http.Assemble.{decimal}
use middle_man.Http.Encoding
use middle_man.Http.Encoding.{
  Content, bytes, str, Outcome, ok, value_error, type_error, Codecs, Cache,
}

-- the parts of a message's data that its content stands in
pub record Message : Type 0 where
  pub headers : Fields
  pub raw_content : Option Content

-- how a method ends: with a return or with an exception
pub data Ended : Type 0 where
  done bad_value bad_type no_key no_attribute : Ended

-- also after an exception the message and the cache stay as they are then
pub record Run : Type 0 where
  pub ended : Ended
  pub message : Message
  pub cache : Cache

-- `len`
abbrev pub size : Content → ℕ
size (bytes b) = length b
size (str s) = length s

-- `errors` of a call that names none
abbrev pub strict_errors : Bytes
strict_errors = codes "strict"

-- `ce or "identity"`
abbrev pub or_identity : Option Bytes → Bytes
or_identity none = codes "identity"
or_identity (some []) = codes "identity"
or_identity (some (c ∷ ce)) = c ∷ ce

-- the end of `set_content`
unfoldable pub with_length : Content → Fields → Fields
unfolding in_headers set_all decimal
with_length raw headers =
    if in_headers (codes "transfer-encoding") headers
    then headers
    else set_all (codes "content-length") (decimal (size raw) ∷ []) headers

abbrev pub with_content : Content → Fields → Message
with_content raw headers = record { headers = with_length raw headers; raw_content = some raw }

-- `except ValueError` of `set_content`
unfoldable pub remove_encoding : Content → Message → Cache → Run
unfolding del_item with_length
remove_encoding value message cache = elim (del_item (codes "content-encoding") (message.headers)) [
  | none ↦ record { ended = no_key; message = message; cache = cache }
  | some headers ↦ record { ended = done; message = with_content value headers; cache = cache }
]

-- `headers.pop(name, None)`
unfoldable pub pop : Bytes → Fields → Fields
unfolding del_item
pop name headers = elim (del_item name headers) [ none ↦ headers | some rest ↦ rest ]

abbrev pub content_encoding : (Bytes → List ℕ) → Fields → Option Bytes
content_encoding native headers = get native (codes "content-encoding") headers

module _ (native : Bytes → List ℕ) (codecs : Codecs) where
  -- what `set_content` does with the result of `encoding.encode`
  abbrev pub set_encoded : Content → Message → Outcome Content × Cache → Run
  set_encoded value message (ok raw, cache) = record {
    ended = done;
    message = with_content raw (message.headers);
    cache = cache;
  }
  set_encoded value message (value_error, cache) = remove_encoding value message cache
  set_encoded value message (type_error, cache) = record {
    ended = bad_type;
    message = message;
    cache = cache;
  }

  unfoldable pub set_content : Option Content → Message → Cache → Run
  unfolding get Encoding.encode with_length remove_encoding
  set_content none message cache = record {
    ended = done;
    message = record { headers = message.headers; raw_content = none };
    cache = cache;
  }
  set_content (some (str s)) message cache = record {
    ended = bad_type;
    message = message;
    cache = cache;
  }
  set_content (some (bytes b)) message cache = set_encoded (bytes b) message (
      Encoding.encode codecs (bytes b) (or_identity (content_encoding native (message.headers)))
        strict_errors cache)

  -- `get_content` on the result of `encoding.decode`
  abbrev pub checked : Bool → Content → Outcome Content → Outcome (Option Content)
  checked strict raw (ok (bytes b)) = ok (some (bytes b))
  checked strict raw (ok (str s)) = if strict then value_error else ok (some raw)
  checked strict raw value_error = if strict then value_error else ok (some raw)
  checked strict raw type_error = type_error

  abbrev pub get_decoded : Bool → Content → Option Bytes → Cache → Outcome (Option Content) × Cache
  get_decoded strict raw none cache = (ok (some raw), cache)
  get_decoded strict raw (some []) cache = (ok (some raw), cache)
  get_decoded strict raw (some (c ∷ ce)) cache =
      let result = Encoding.decode codecs raw (c ∷ ce) strict_errors cache in
      (checked strict raw result.0, result.1)

  unfoldable pub get_content : Bool → Message → Cache → Outcome (Option Content) × Cache
  unfolding get Encoding.decode
  get_content strict message cache = elim (message.raw_content) [
    | none ↦ (ok none, cache)
    | some raw ↦ get_decoded strict raw (content_encoding native (message.headers)) cache
  ]

  -- `decode` with the result of `get_content`
  abbrev pub set_decoded : Message → Outcome (Option Content) × Cache → Run
  set_decoded message (ok decoded, cache) =
      set_content decoded
        (record {
          headers = pop (codes "content-encoding") (message.headers);
          raw_content = message.raw_content;
        })
        cache
  set_decoded message (value_error, cache) = record {
    ended = bad_value;
    message = message;
    cache = cache;
  }
  set_decoded message (type_error, cache) = record {
    ended = bad_type;
    message = message;
    cache = cache;
  }

  -- `Message.decode`
  unfoldable pub decode : Bool → Message → Cache → Run
  unfolding get_content set_content pop
  decode strict message cache = set_decoded message (get_content strict message cache)

  -- `encode` raises when `set_content` has removed the header
  abbrev pub check_encoding : Run → Run
  check_encoding run = elim (run.ended) [
    | done ↦
        if in_headers (codes "content-encoding") (run.message.headers)
        then run
        else record { ended = bad_value; message = run.message; cache = run.cache }
    | bad_value ↦ run
    | bad_type ↦ run
    | no_key ↦ run
    | no_attribute ↦ run
  ]

  -- `Message.encode`
  unfoldable pub encode : (List ℕ → Option Bytes) → Bytes → Message → Cache → Run
  unfolding set_all set_content in_headers
  encode always_bytes encoding message cache = elim (always_bytes encoding) [
    | none ↦ record { ended = bad_value; message = message; cache = cache }
    | some value ↦ check_encoding (
        set_content (message.raw_content)
          (record {
            headers = set_all (codes "content-encoding") (value ∷ []) (message.headers);
            raw_content = message.raw_content;
          })
          cache)
  ]
