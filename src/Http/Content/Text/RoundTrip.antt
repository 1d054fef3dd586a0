-- ===== src/Http/Content/Text/RoundTrip.antt =====
-- What `set_text` of mitmproxy/http.py leaves for `get_text`.
use middle_man.Base.{◌≡◌, refl, ◌∙◌, ap, sym, Bool, true, Option, some, [], ◌∷◌, arith}
use middle_man.Http.Text.{Bytes, codes}
use middle_man.Http.Headers.{Fields, raw_all}
use middle_man.Http.Assemble.Response.{is_filled}
use middle_man.Http.ContentType.{parse_content_type}
use middle_man.Http.ContentType.Charset.{attempt, charset_of, widened, infer_content_encoding}
use middle_man.Http.Encoding
use middle_man.Http.Encoding.{
  Content, bytes, str, Outcome, ok, value_error, type_error, Codecs, Cache, decode_as, encode_as,
  encoded_of,
}
use middle_man.Http.Encoding.Cache.{Inverts, IsValid, decode-IsValid, encode-IsValid}
use middle_man.Http.Content.{
  Message, Ended, done, bad_value, bad_type, no_key, no_attribute, Run, strict_errors, or_identity,
  content_encoding, set_content, get_content,
}
use middle_man.Http.Content.RoundTrip.{Reads, name_of, Kept, set_content-Kept}
use middle_man.Http.Content.Lookups.{get-raw_all}
use middle_man.Http.Content.Text.{
  text, Python, content_type, infer, or_fall_back, decoded_text, text_of, set_encoded_text,
  set_text, get_text,
}
use middle_man.Http.Content.Effects.{
  set_encoded-content_type, set_content-IsValid, get_content-IsValid, encode-str,
}

module _ (python : Python) where
  -- the charset that the header names, if any
  abbrev pub charset : Fields → Bytes
  charset headers =
      charset_of (
        parse_content_type (python.codecs.lower_str) (python.is_blank)
          (content_type python headers))

  widen : Outcome Bytes → Outcome Bytes
  widen enc = widened (python.codecs.lower_str) (python.is_blank) (python.patterns) enc

  attempt-filled :
      (applies : Bool) (found : Outcome Bytes) (enc : Bytes)
      → is_filled enc ≡ true
      → attempt applies found (ok enc) ≡ ok enc
  attempt-filled applies found [] h = ground (arith, h)
  attempt-filled applies found (c ∷ enc) h = refl

  -- then that is the charset, whatever the content is
  infer-charset :
      (headers : Fields) (content : Content)
      → is_filled (charset headers) ≡ true
      → infer python headers content ≡ widen (ok (charset headers))
  unfolding infer infer_content_encoding widen
  infer-charset headers content h =
      rw
        (
          infer,
          infer_content_encoding,
          attempt-filled _ _ (charset headers) h,
          attempt-filled _ _ (charset headers) h,
          attempt-filled _ _ (charset headers) h,
          attempt-filled _ _ (charset headers) h,
        )
        refl

  infer-raw_all :
      (headers headers' : Fields) (content : Content)
      → raw_all (codes "content-type") headers ≡ raw_all (codes "content-type") headers'
      → infer python headers content ≡ infer python headers' content
  unfolding infer content_type
  infer-raw_all headers headers' content e =
      rw
        (infer, content_type, get-raw_all (python.native) (codes "content-type") headers headers' e)
        refl

  text_of-content :
      (strict : Bool) (t b enc : Bytes) (headers : Fields) (result : Outcome (Option Content))
      (cache : Cache)
      → IsValid (python.codecs) cache
      → result ≡ ok (some (bytes b))
      → infer python headers (bytes b) ≡ ok enc
      → decode_as (python.codecs) (python.codecs.lower_str enc) strict_errors (bytes b) ≡ ok (str t)
      → (text_of python strict headers (result, cache)).0 ≡ text (some (str t))
  text_of-content strict t b enc headers result cache valid e named decoded =
      rw (e, named)
        (ap (decoded_text python strict (bytes b))
          ((decode-IsValid (python.codecs) (bytes b) enc strict_errors cache valid).0 ∙ decoded))

  get_text-content :
      (strict : Bool) (t b enc : Bytes) (message : Message) (cache : Cache)
      → IsValid (python.codecs) cache
      → (get_content (python.native) (python.codecs) strict message cache).0 ≡ ok (some (bytes b))
      → infer python (message.headers) (bytes b) ≡ ok enc
      → decode_as (python.codecs) (python.codecs.lower_str enc) strict_errors (bytes b) ≡ ok (str t)
      → (get_text python strict message cache).0 ≡ text (some (str t))
  unfolding get_text
  get_text-content strict t b enc message cache valid e named decoded =
      let got = get_content (python.native) (python.codecs) strict message cache in
      text_of-content strict t b enc (message.headers) got.0 got.1
        (get_content-IsValid (python.native) (python.codecs) strict message cache valid) e named
        decoded

  -- how `set_text` ends when the charset takes the text: the text reads back, or the codec of the
  -- content-encoding has raised a TypeError for the bytes, and nothing is changed
  abbrev pub KeptText : Bytes → Bytes → Message → Run → Type 0
  KeptText t b before run = elim (run.ended) [
    | done ↦
        (strict : Bool) → (get_text python strict (run.message) (run.cache)).0 ≡ text (some (str t))
    | bad_value ↦ ⊥
    | bad_type ↦
        (run.message ≡ before)
        × (encode_as (python.codecs) (name_of (python.native) (python.codecs) (before.headers))
              strict_errors (bytes b)
            ≡ type_error)
    | no_key ↦ ⊥
    | no_attribute ↦ ⊥
  ]

  -- what `set_content` of the encoded text has done
  or_fall_back-KeptText :
      (t b enc : Bytes) (before : Message) (ended : Ended) (after : Message) (cache : Cache)
      → Kept
          (python.native)
          (python.codecs)
          b
          before
          (record { ended = ended; message = after; cache = cache })
      → IsValid (python.codecs) cache
      → infer python (after.headers) (bytes b) ≡ ok enc
      → decode_as (python.codecs) (python.codecs.lower_str enc) strict_errors (bytes b) ≡ ok (str t)
      → KeptText t b before
          (or_fall_back python t (record { ended = ended; message = after; cache = cache }))
  or_fall_back-KeptText t b enc before done after cache kept valid named decoded =
      λ strict. get_text-content strict t b enc after cache valid (kept.0 strict) named decoded
  or_fall_back-KeptText t b enc before bad_value after cache kept valid named decoded = absurd kept
  or_fall_back-KeptText t b enc before bad_type after cache kept valid named decoded = kept
  or_fall_back-KeptText t b enc before no_key after cache kept valid named decoded = absurd kept
  or_fall_back-KeptText t b enc before no_attribute after cache kept valid named decoded =
      absurd kept

  set_encoded_text-KeptText :
      (t b enc : Bytes) (message : Message) (result : Outcome Content) (cache : Cache)
      → Inverts (python.codecs)
      → Reads (python.native) (python.codecs) (bytes b)
      → python.codecs.lower_str (codes "identity") ≡ codes "identity"
      → IsValid (python.codecs) cache
      → is_filled (charset (message.headers)) ≡ true
      → infer python (message.headers) (bytes []) ≡ ok enc
      → result ≡ ok (bytes b)
      → decode_as (python.codecs) (python.codecs.lower_str enc) strict_errors (bytes b) ≡ ok (str t)
      → KeptText t b message (set_encoded_text python t message (result, cache))
  unfolding set_content
  set_encoded_text-KeptText t b enc message result cache inverts reads low valid has named e
        decoded =
      let run = set_content (python.native) (python.codecs) (some (bytes b)) message cache in
      let kept_type = set_encoded-content_type (python.native) (python.codecs) (bytes b) message (
        Encoding.encode (python.codecs) (bytes b)
          (or_identity (content_encoding (python.native) (message.headers))) strict_errors cache) in
      rw e (
        or_fall_back-KeptText t b enc message (run.ended) (run.message) (run.cache)
          (set_content-Kept (python.native) (python.codecs) b message cache inverts reads low valid)
          (set_content-IsValid (python.native) (python.codecs) b message cache inverts valid)
          (infer-raw_all (run.message.headers) (message.headers) (bytes b) kept_type
            ∙ (infer-charset (message.headers) (bytes b) has
                ∙ (sym (infer-charset (message.headers) (bytes []) has) ∙ named)))
          decoded)

  -- A text in the charset that the content-type names reads back: `set_text` returns, and `get_text`,
  -- strict or not, gives the same text, whatever a pattern would find in the body and whether the
  -- content-encoding was applied or removed; or the codec of the content-encoding has raised a TypeError
  -- for the bytes, and the message is unchanged. This is where the charset takes the text and reads it,
  -- under the conditions of `set_content`.
  pub set_text-KeptText :
      (t b enc : Bytes) (message : Message) (cache : Cache)
      → Inverts (python.codecs)
      → Reads (python.native) (python.codecs) (bytes b)
      → python.codecs.lower_str (codes "identity") ≡ codes "identity"
      → IsValid (python.codecs) cache
      → is_filled (charset (message.headers)) ≡ true
      → infer python (message.headers) (bytes []) ≡ ok enc
      → encode_as (python.codecs) (python.codecs.lower_str enc) strict_errors (str t) ≡ ok (bytes b)
      → decode_as (python.codecs) (python.codecs.lower_str enc) strict_errors (bytes b) ≡ ok (str t)
      → KeptText t b message (set_text python (some t) message cache)
  unfolding set_text
  set_text-KeptText t b enc message cache inverts reads low valid has named e decoded =
      let encoded = Encoding.encode (python.codecs) (str t) enc strict_errors cache in
      rw (set_text, named)
        (set_encoded_text-KeptText t b enc message encoded.0 encoded.1 inverts reads low
          (encode-IsValid (python.codecs) (str t) enc strict_errors cache inverts valid).1 has named
          (encode-str (python.native) (python.codecs) t enc cache ∙ e) decoded)
