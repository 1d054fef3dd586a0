-- ===== src/Http/Content/RoundTrip.antt =====
-- What `set_content` of mitmproxy/http.py leaves for `get_content`.
use middle_man.Base.{
  ℕ, ◌≡◌, refl, ◌∙◌, ap, sym, Bool, Option, none, some, List, [], ◌∷◌, inl, inr, arith,
  Option-cases,
}
use middle_man.Http.Text.{Bytes, codes}
use middle_man.Http.Headers.{Fields}
use middle_man.Http.Encoding
use middle_man.Http.Encoding.{
  Content, bytes, str, Outcome, ok, value_error, type_error, Codecs, Cache, Coder, custom,
  decode_as, encode_as, custom_decode, custom_encode,
}
use middle_man.Http.Encoding.Cache.{
  Inverts, IsValid, Encodes, decode-IsValid, encode-IsValid, decode_as-encode_as,
}
use middle_man.Http.Content.{
  Message, done, bad_value, bad_type, no_key, no_attribute, Run, strict_errors, or_identity,
  remove_encoding, content_encoding, set_encoded, set_content, checked, get_decoded, get_content,
}
use middle_man.Http.Content.Lookups.{
  with_length-IsMeasured, content_encoding-with_length, get-del_item, IsMeasured,
}

module _ (native : Bytes → List ℕ) (codecs : Codecs) where
  -- codecs of the registry that take the content decode what they make of it
  abbrev pub Reads : Content → Type 0
  Reads content =
      (name : Bytes) (encoded : Content)
      → codecs.codecs_encode name strict_errors content ≡ ok encoded
      → codecs.codecs_decode name strict_errors encoded ≡ ok content

  -- the name that `set_content` encodes with
  abbrev pub name_of : Fields → Bytes
  name_of headers = codecs.lower_str (or_identity (content_encoding native headers))

  abbrev pub content_of : Outcome Content → Content
  content_of (ok content) = content
  content_of _ = bytes []

  decode_as-encode_as_all :
      (name : Bytes) (content raw : Content)
      → Inverts codecs
      → Reads content
      → encode_as codecs name strict_errors content ≡ ok raw
      → decode_as codecs name strict_errors raw ≡ ok content
  unfolding decode_as encode_as
  decode_as-encode_as_all name content raw inverts reads e = elim (Option-cases (custom name)) [
    | inl c ↦ rw (decode_as, c) (reads name raw (rw (encode_as, c) at e))
    | inr (coder, c) ↦ decode_as-encode_as codecs name strict_errors coder content raw inverts c e
  ]

  Encodes-decode_as :
      (name : Bytes) (content raw : Content)
      → Inverts codecs
      → Reads content
      → Encodes codecs name strict_errors content (ok raw)
      → decode_as codecs name strict_errors raw ≡ ok content
  Encodes-decode_as name content raw inverts reads (inl e) =
      decode_as-encode_as_all name content raw inverts reads (sym e)
  Encodes-decode_as name content raw inverts reads (inr (encoded, (e, d))) = rw (ap content_of e) d

  pub decode_as-identity :
      (content : Content) → decode_as codecs (codes "identity") strict_errors content ≡ ok content
  unfolding decode_as custom custom_decode
  decode_as-identity content = refl

  pub encode_as-identity :
      (content : Content) → encode_as codecs (codes "identity") strict_errors content ≡ ok content
  unfolding encode_as custom custom_encode
  encode_as-identity content = refl

  -- reading content that is decoded to `b`
  get_identity :
      (b : Bytes) (raw : Content)
      → codecs.lower_str (codes "identity") ≡ codes "identity"
      → decode_as codecs (codecs.lower_str (codes "identity")) strict_errors raw ≡ ok (bytes b)
      → ok (some raw) ≡ ok (some (bytes b))
  get_identity b raw low e =
      ap (λ content. ok (some content))
        (ap content_of (sym (decode_as-identity raw) ∙ (rw low at e)))

  get_decoded-decode_as :
      (strict : Bool) (b : Bytes) (raw : Content) (ce : Option Bytes) (cache : Cache)
      → codecs.lower_str (codes "identity") ≡ codes "identity"
      → IsValid codecs cache
      → decode_as codecs (codecs.lower_str (or_identity ce)) strict_errors raw ≡ ok (bytes b)
      → (get_decoded native codecs strict raw ce cache).0 ≡ ok (some (bytes b))
  get_decoded-decode_as strict b raw none cache low valid e = get_identity b raw low e
  get_decoded-decode_as strict b raw (some []) cache low valid e = get_identity b raw low e
  get_decoded-decode_as strict b raw (some (c ∷ ce)) cache low valid e =
      ap (checked native codecs strict raw)
        ((decode-IsValid codecs raw (c ∷ ce) strict_errors cache valid).0 ∙ e)

  -- how `set_content` of bytes ends: the content reads back, and the headers have its length; or the
  -- codec has raised a TypeError, and nothing is changed
  abbrev pub Kept : Bytes → Message → Run → Type 0
  Kept b before run = elim (run.ended) [
    | done ↦
        ((strict : Bool)
          → (get_content native codecs strict (run.message) (run.cache)).0 ≡ ok (some (bytes b)))
        × ((raw : Content) × ((run.message.raw_content ≡ some raw)
              × IsMeasured raw (run.message.headers)))
    | bad_value ↦ ⊥
    | bad_type ↦
        (run.message ≡ before)
        × (encode_as codecs (name_of (before.headers)) strict_errors (bytes b) ≡ type_error)
    | no_key ↦ ⊥
    | no_attribute ↦ ⊥
  ]

  -- the branch where the encoding is not valid: the header is there, and is removed
  remove_encoding-Kept :
      (b : Bytes) (c : Bytes) (message : Message) (cache : Cache)
      → content_encoding native (message.headers) ≡ some c
      → Kept b message (remove_encoding (bytes b) message cache)
  unfolding remove_encoding get_content
  remove_encoding-Kept b c message cache e =
      let gone = get-del_item native (codes "content-encoding") c (message.headers) e in
      rw (remove_encoding, gone.1.0)
        (
          λ strict.
              ap (λ ce. (get_decoded native codecs strict (bytes b) ce cache).0)
                (content_encoding-with_length native (bytes b) gone.0 ∙ gone.1.1),
          (bytes b, (refl, with_length-IsMeasured (bytes b) gone.0)),
        )

  -- an encoding that is not valid comes from the header
  invalid-header :
      (b : Bytes) (ce : Option Bytes)
      → codecs.lower_str (codes "identity") ≡ codes "identity"
      → encode_as codecs (codecs.lower_str (or_identity ce)) strict_errors (bytes b) ≡ value_error
      → (c : Bytes) × (ce ≡ some c)
  invalid-header b none low e = absurd (ground (arith, encode_as-identity (bytes b), rw low at e))
  invalid-header b (some []) low e =
      absurd (ground (arith, encode_as-identity (bytes b), rw low at e))
  invalid-header b (some (c ∷ ce)) low e = (c ∷ ce, refl)

  set_encoded-Kept :
      (b : Bytes) (message : Message) (result : Outcome Content) (cache : Cache)
      → Inverts codecs
      → Reads (bytes b)
      → codecs.lower_str (codes "identity") ≡ codes "identity"
      → IsValid codecs cache
      → Encodes codecs (name_of (message.headers)) strict_errors (bytes b) result
      → Kept b message (set_encoded native codecs (bytes b) message (result, cache))
  unfolding get_content
  set_encoded-Kept b message (ok raw) cache inverts reads low valid right =
      let same = content_encoding-with_length native raw (message.headers) in
      let decoded =
        Encodes-decode_as (name_of (message.headers)) (bytes b) raw inverts reads right in
      (
        λ strict. get_decoded-decode_as strict b raw _ cache low valid (rw same decoded),
        (raw, (refl, with_length-IsMeasured raw (message.headers))),
      )
  set_encoded-Kept b message value_error cache inverts reads low valid (inl e) =
      let named = invalid-header b (content_encoding native (message.headers)) low (sym e) in
      remove_encoding-Kept b named.0 message cache named.1
  set_encoded-Kept b message value_error cache inverts reads low valid (inr (raw, (e, d))) =
      absurd (ground (arith, e))
  set_encoded-Kept b message type_error cache inverts reads low valid (inl e) = (refl, sym e)
  set_encoded-Kept b message type_error cache inverts reads low valid (inr (raw, (e, d))) =
      absurd (ground (arith, e))

  -- Setting the content to bytes either keeps them: `get_content` gives the same bytes back, strict or
  -- not, whether the encoding was applied or removed as invalid, and content-length has the length of the
  -- raw content unless there is a transfer-encoding; or a codec has raised a TypeError, and the message is
  -- unchanged. No other exception comes. This is for a cache that is right, libraries that read what they
  -- write, and codecs that read what they make of these bytes.
  pub set_content-Kept :
      (b : Bytes) (message : Message) (cache : Cache)
      → Inverts codecs
      → Reads (bytes b)
      → codecs.lower_str (codes "identity") ≡ codes "identity"
      → IsValid codecs cache
      → Kept b message (set_content native codecs (some (bytes b)) message cache)
  unfolding set_content
  set_content-Kept b message cache inverts reads low valid =
      let ce = or_identity (content_encoding native (message.headers)) in
      let right = encode-IsValid codecs (bytes b) ce strict_errors cache inverts valid in
      let encoded = Encoding.encode codecs (bytes b) ce strict_errors cache in
      set_encoded-Kept b message encoded.0 encoded.1 inverts reads low right.1 right.0
