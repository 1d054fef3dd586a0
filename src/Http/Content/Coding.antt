-- ===== src/Http/Content/Coding.antt =====
-- `Message.encode` of mitmproxy/http.py, and `Message.decode` behind it.
use mathlib.Core.Path.{subst}
use middle_man.Base.{
  ℕ, ◌≡◌, refl, ◌∙◌, ap, sym, Bool, true, false, Option, none, some, List, [], ◌∷◌, inl, inr,
  Bool-cases,
}
use middle_man.Http.Text.{Bytes, codes, lower}
use middle_man.Http.Headers.{Fields, raw_all, in_headers, set_all}
use middle_man.Http.Encoding
use middle_man.Http.Encoding.{
  Content, bytes, str, Outcome, ok, value_error, type_error, Codecs, Cache, decode_as, encode_as,
}
use middle_man.Http.Encoding.Cache.{Inverts, IsValid, Encodes, encode-IsValid}
use middle_man.Http.Content.{
  Message, Ended, done, bad_value, bad_type, no_key, no_attribute, Run, strict_errors, with_content,
  pop, content_encoding, set_encoded, set_content, get_content, set_decoded, decode, check_encoding,
  encode,
}
use middle_man.Http.Content.RoundTrip.{
  Reads, name_of, Kept, set_content-Kept, decode_as-identity, encode_as-identity, content_of,
}
use middle_man.Http.Content.Effects.{set_content-IsValid, get_content-IsValid}
use middle_man.Http.Content.Lookups.{raw_all-with_length, get-none, raw_all-pop, in_headers-absent}

module _ (native : Bytes → List ℕ) (codecs : Codecs) where
  -- bytes that are set without a content-encoding are the raw content
  set_encoded-identity :
      (b : Bytes) (message : Message) (result : Outcome Content) (cache : Cache)
      → Encodes codecs (codes "identity") strict_errors (bytes b) result
      → set_encoded native codecs (bytes b) message (result, cache)
        ≡ record { ended = done; message = with_content (bytes b) (message.headers); cache = cache }
  set_encoded-identity b message result cache (inl e) =
      rw (e, encode_as-identity native codecs (bytes b)) refl
  set_encoded-identity b message result cache (inr (encoded, (e, d))) =
      rw (e, ap (content_of native codecs) (sym (decode_as-identity native codecs encoded) ∙ d))
        refl

  set_content-identity :
      (b : Bytes) (message : Message) (cache : Cache)
      → Inverts codecs
      → codecs.lower_str (codes "identity") ≡ codes "identity"
      → IsValid codecs cache
      → content_encoding native (message.headers) ≡ none
      → (cache' : Cache) × (set_content native codecs (some (bytes b)) message cache ≡ record {
        ended = done;
        message = with_content (bytes b) (message.headers);
        cache = cache';
      })
  unfolding set_content
  set_content-identity b message cache inverts low valid gone =
      let result = Encoding.encode codecs (bytes b) (codes "identity") strict_errors cache in
      (
        result.1,
        rw (set_content, gone)
            (set_encoded-identity b message result.0 result.1 (
              rw low at
                (encode-IsValid codecs (bytes b) (codes "identity") strict_errors cache inverts
                  valid).0)),
      )

  -- what `decode` leaves of bytes that `get_content` gives
  abbrev pub IsDecoded : Bytes → Run → Type 0
  IsDecoded b run =
      (run.ended ≡ done)
      × ((run.message.raw_content ≡ some (bytes b))
          × (in_headers (codes "content-encoding") (run.message.headers) ≡ false))

  with_content-IsDecoded :
      (b : Bytes) (headers : Fields) (cache : Cache)
      → raw_all (codes "content-encoding") headers ≡ []
      → IsDecoded b
          (record { ended = done; message = with_content (bytes b) headers; cache = cache })
  unfolding lower
  with_content-IsDecoded b headers cache e = (
    refl,
    (
      refl,
      in_headers-absent (codes "content-encoding") _
          (raw_all-with_length (codes "content-encoding") (bytes b) headers refl ∙ e),
    ),
  )

  decode-IsDecoded :
      (strict : Bool) (b : Bytes) (message : Message) (cache : Cache)
      → Inverts codecs
      → codecs.lower_str (codes "identity") ≡ codes "identity"
      → IsValid codecs cache
      → (get_content native codecs strict message cache).0 ≡ ok (some (bytes b))
      → IsDecoded b (decode native codecs strict message cache)
  unfolding decode
  decode-IsDecoded strict b message cache inverts low valid e =
      let got = get_content native codecs strict message cache in
      let popped = raw_all-pop (codes "content-encoding") (message.headers) in
      let bare : Message = record {
        headers = pop (codes "content-encoding") (message.headers);
        raw_content = message.raw_content;
      } in
      let done_so =
        set_content-identity b bare got.1 inverts low
          (get_content-IsValid native codecs strict message cache valid)
          (get-none native (codes "content-encoding") (bare.headers) popped) in
      subst (λ run. IsDecoded b run)
        (sym (ap (λ r. set_decoded native codecs message (r, got.1)) e ∙ done_so.1))
        (with_content-IsDecoded b (bare.headers) (done_so.0) popped)

  -- how `encode` of a message with bytes ends: with the header, and the bytes read back and are decoded;
  -- with a ValueError, where the header is gone and the bytes read back; or with the TypeError of a codec
  abbrev pub IsCoded : Bytes → Fields → Run → Type 0
  IsCoded b headers run = elim (run.ended) [
    | done ↦
        (in_headers (codes "content-encoding") (run.message.headers) ≡ true)
        × ((strict : Bool)
            → ((get_content native codecs strict (run.message) (run.cache)).0 ≡ ok (some (bytes b)))
              × IsDecoded b (decode native codecs strict (run.message) (run.cache)))
    | bad_value ↦
        (in_headers (codes "content-encoding") (run.message.headers) ≡ false)
        × ((strict : Bool)
            → (get_content native codecs strict (run.message) (run.cache)).0 ≡ ok (some (bytes b)))
    | bad_type ↦
        encode_as codecs (name_of native codecs headers) strict_errors (bytes b) ≡ type_error
    | no_key ↦ ⊥
    | no_attribute ↦ ⊥
  ]

  check_encoding-IsCoded :
      (b : Bytes) (before : Message) (ended : Ended) (after : Message) (cache : Cache)
      → Inverts codecs
      → codecs.lower_str (codes "identity") ≡ codes "identity"
      → IsValid codecs cache
      → Kept native codecs b before (record { ended = ended; message = after; cache = cache })
      → IsCoded b
          (before.headers)
          (check_encoding native codecs (record { ended = ended; message = after; cache = cache }))
  check_encoding-IsCoded b before done after cache inverts low valid kept =
      elim (Bool-cases (in_headers (codes "content-encoding") (after.headers))) [
        | inl e ↦ rw e (
          e,
          λ strict. (
            kept.0 strict,
            decode-IsDecoded strict b after cache inverts low valid (kept.0 strict),
          ),
        )
        | inr e ↦ rw e (e, kept.0)
      ]
  check_encoding-IsCoded b before bad_value after cache inverts low valid kept = absurd kept
  check_encoding-IsCoded b before bad_type after cache inverts low valid kept = kept.1
  check_encoding-IsCoded b before no_key after cache inverts low valid kept = absurd kept
  check_encoding-IsCoded b before no_attribute after cache inverts low valid kept = absurd kept

  -- the headers that `encode` encodes with
  abbrev pub with_encoding : Bytes → Fields → Fields
  with_encoding value headers = set_all (codes "content-encoding") (value ∷ []) headers

  -- `Message.encode` of bytes ends in one of three ways. It returns: then the header is there, the bytes
  -- read back, and `Message.decode` makes them the raw content again and removes the header. It raises the
  -- ValueError: then the header is gone and the bytes still read back. Or a codec has raised a TypeError for
  -- them. This is under the conditions of `set_content`, for a name that can be encoded.
  pub encode-IsCoded :
      (always_bytes : List ℕ → Option Bytes) (name value b : Bytes) (message : Message)
      (cache : Cache)
      → Inverts codecs
      → Reads native codecs (bytes b)
      → codecs.lower_str (codes "identity") ≡ codes "identity"
      → IsValid codecs cache
      → always_bytes name ≡ some value
      → message.raw_content ≡ some (bytes b)
      → IsCoded b
          (with_encoding value (message.headers))
          (encode native codecs always_bytes name message cache)
  unfolding encode
  encode-IsCoded always_bytes name value b message cache inverts reads low valid named raw =
      let marked : Message = record {
        headers = with_encoding value (message.headers);
        raw_content = some (bytes b);
      } in
      let run = set_content native codecs (some (bytes b)) marked cache in
      rw (encode, named, raw)
        (check_encoding-IsCoded b marked (run.ended) (run.message) (run.cache) inverts low
          (set_content-IsValid native codecs b marked cache inverts valid)
          (set_content-Kept native codecs b marked cache inverts reads low valid))
