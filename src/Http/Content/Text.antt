-- ===== src/Http/Content/Text.antt =====
-- `text` of `Message` in mitmproxy/http.py: the content as a text in the charset of its type.
pub mod RoundTrip
use middle_man.Base.{ℕ, Bool, true, false, Option, none, some, List, [], ◌∷◌, if◌then◌else◌}
use middle_man.Http.Text.{Bytes, codes}
use middle_man.Http.Headers.{Fields, get, set_all}
use middle_man.Http.ContentType.{
  Parameters, parse_content_type, set_parameter, assemble_content_type,
}
use middle_man.Http.ContentType.Charset.{Patterns, infer_content_encoding}
use middle_man.Http.Encoding
use middle_man.Http.Encoding.{
  Content, bytes, str, Outcome, ok, value_error, type_error, Codecs, Cache,
}
use middle_man.Http.Content.{
  Message, Ended, done, bad_value, bad_type, no_key, no_attribute, Run, strict_errors, set_content,
  get_content,
}

-- what `get_text` gives
pub data Text : Type 0 where
  text : Option Content → Text
  raised : Ended → Text

-- what the methods use of the libraries
pub record Python : Type 0 where
  pub native : Bytes → List ℕ
  pub always_bytes : List ℕ → Option Bytes
  pub is_blank : ℕ → Bool
  pub patterns : Patterns
  pub codecs : Codecs

-- `parse_content_type(...) or ("text", "plain", {})`
abbrev pub or_plain : Option (Bytes × (Bytes × Parameters)) → Bytes × (Bytes × Parameters)
or_plain none = (codes "text", (codes "plain", []))
or_plain (some parsed) = parsed

module _ (python : Python) where
  -- `headers.get("content-type", "")`
  unfoldable pub content_type : Fields → Bytes
  unfolding get
  content_type headers = elim (get (python.native) (codes "content-type") headers) [
    | none ↦ []
    | some ct ↦ ct
  ]

  unfoldable pub infer : Fields → Content → Outcome Bytes
  unfolding content_type infer_content_encoding
  infer headers content =
      infer_content_encoding (python.codecs.lower_str) (python.is_blank) (python.patterns)
        (content_type headers) content

  -- the content type with the charset utf-8
  unfoldable pub utf8_type : Fields → Bytes
  unfolding content_type parse_content_type set_parameter assemble_content_type
  utf8_type headers =
      let ct =
        or_plain
          (parse_content_type (python.codecs.lower_str) (python.is_blank) (content_type headers)) in
      assemble_content_type (ct.0) (ct.1.0)
        (set_parameter (codes "charset") (codes "utf-8") (ct.1.1))

  -- `self.content = text.encode(enc, "surrogateescape")`
  abbrev pub set_utf8 : Bytes → Message → Cache → Run
  set_utf8 t message cache = elim (python.always_bytes t) [
    | none ↦ record { ended = bad_value; message = message; cache = cache }
    | some b ↦ set_content (python.native) (python.codecs) (some (bytes b)) message cache
  ]

  -- `except ValueError` of `set_text`
  unfoldable pub fall_back : Bytes → Message → Cache → Run
  unfolding utf8_type set_all set_content
  fall_back t message cache = elim (python.always_bytes (utf8_type (message.headers))) [
    | none ↦ record { ended = bad_value; message = message; cache = cache }
    | some ct ↦
        set_utf8 t
          (record {
            headers = set_all (codes "content-type") (ct ∷ []) (message.headers);
            raw_content = message.raw_content;
          })
          cache
  ]

  -- the exceptions of the assignment in the `try`
  abbrev pub or_fall_back : Bytes → Run → Run
  or_fall_back t run = elim (run.ended) [
    | done ↦ run
    | bad_value ↦ fall_back t (run.message) (run.cache)
    | bad_type ↦ run
    | no_key ↦ run
    | no_attribute ↦ run
  ]

  -- `set_text` with the result of `encoding.encode`
  abbrev pub set_encoded_text : Bytes → Message → Outcome Content × Cache → Run
  set_encoded_text t message (ok raw, cache) =
      or_fall_back t (set_content (python.native) (python.codecs) (some raw) message cache)
  set_encoded_text t message (value_error, cache) = fall_back t message cache
  set_encoded_text t message (type_error, cache) = record {
    ended = bad_type;
    message = message;
    cache = cache;
  }

  abbrev pub set_text_in : Bytes → Message → Cache → Outcome Bytes → Run
  set_text_in t message cache (ok enc) =
      set_encoded_text t message (Encoding.encode (python.codecs) (str t) enc strict_errors cache)
  set_text_in t message cache value_error = record {
    ended = bad_value;
    message = message;
    cache = cache;
  }
  set_text_in t message cache type_error = record {
    ended = bad_type;
    message = message;
    cache = cache;
  }

  unfoldable pub set_text : Option Bytes → Message → Cache → Run
  unfolding infer Encoding.encode set_content fall_back
  set_text none message cache = set_content (python.native) (python.codecs) none message cache
  set_text (some t) message cache = set_text_in t message cache (infer (message.headers) (bytes []))

  -- `get_text` with the result of `encoding.decode`
  abbrev pub decoded_text : Bool → Content → Outcome Content → Text
  decoded_text strict content (ok t) = text (some t)
  decoded_text strict (bytes b) value_error =
      if strict then raised bad_value else text (some (str (python.native b)))
  decoded_text strict (str s) value_error = if strict then raised bad_value else raised no_attribute
  decoded_text strict content type_error = raised bad_type

  abbrev pub get_text_in : Bool → Content → Cache → Outcome Bytes → Text × Cache
  get_text_in strict content cache (ok enc) =
      let result = Encoding.decode (python.codecs) content enc strict_errors cache in
      (decoded_text strict content result.0, result.1)
  get_text_in strict content cache value_error = (raised bad_value, cache)
  get_text_in strict content cache type_error = (raised bad_type, cache)

  -- `get_text` with the result of `get_content`
  abbrev pub text_of : Bool → Fields → Outcome (Option Content) × Cache → Text × Cache
  text_of strict headers (ok none, cache) = (text none, cache)
  text_of strict headers (ok (some content), cache) =
      get_text_in strict content cache (infer headers content)
  text_of strict headers (value_error, cache) = (raised bad_value, cache)
  text_of strict headers (type_error, cache) = (raised bad_type, cache)

  unfoldable pub get_text : Bool → Message → Cache → Text × Cache
  unfolding get_content infer Encoding.decode
  get_text strict message cache =
      text_of strict (message.headers)
        (get_content (python.native) (python.codecs) strict message cache)
