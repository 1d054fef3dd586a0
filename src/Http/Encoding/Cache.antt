-- ===== src/Http/Encoding/Cache.antt =====
-- The shared cache of mitmproxy/net/encoding.py and what it leaves of the results.
use middle_man.Base.{
  ◌≡◌, refl, ◌∙◌, ap, sym, true, none, some, [], ◌∷◌, ◌⊎◌, inl, inr, arith, Bool-cases,
  Option-cases,
}
use middle_man.Http.Text.{Bytes, bytes_eq_iff}
use middle_man.Http.Assemble.Response.{is_filled}
use middle_man.Http.Encoding.{
  Content, bytes, str, same_content, Outcome, ok, value_error, type_error, Codecs, Coder, identity,
  gzip, deflate, brotli, zstd, custom, is_cached_name, CachedDecode, Cache, decompress, compress,
  custom_decode, custom_encode, decode_as, encode_as, is_for, decoded_of, encoded_of, store,
  store_decoded, store_encoded, decode, encode, or_error,
}

same_content-eq : (a b : Content) → same_content a b ≡ true → a ≡ b
same_content-eq (bytes a) (bytes b) h = ap bytes ((bytes_eq_iff a b).0 h)
same_content-eq (str a) (str b) h = ap str ((bytes_eq_iff a b).0 h)
same_content-eq (bytes a) (str b) h = ground (arith, h)
same_content-eq (str a) (bytes b) h = ground (arith, h)

module _ (codecs : Codecs) where
  -- the libraries read what they write, which is never empty
  abbrev pub Inverts : Type 0
  Inverts =
      (coder : Coder) (b : Bytes)
      → is_cached_name (some coder) ≡ true
      → (decompress codecs coder (compress codecs coder b) ≡ some b)
        × (is_filled (compress codecs coder b) ≡ true)

  -- the element of the cache is decoded content with what it is decoded from
  abbrev pub IsValid : Cache → Type 0
  IsValid none = Unit
  IsValid (some entry) =
      decode_as codecs (entry.encoding) (entry.errors) (entry.encoded) ≡ ok (entry.decoded)

  custom_decode-filled :
      (coder : Coder) (b d : Bytes)
      → is_filled b ≡ true
      → decompress codecs coder b ≡ some d
      → custom_decode codecs coder (bytes b) ≡ ok (bytes d)
  unfolding custom_decode
  custom_decode-filled coder [] d h e = ground (arith, h)
  custom_decode-filled identity (c ∷ b) d h e = ap or_error e
  custom_decode-filled gzip (c ∷ b) d h e = ap or_error e
  custom_decode-filled deflate (c ∷ b) d h e = ap or_error e
  custom_decode-filled brotli (c ∷ b) d h e = ap or_error e
  custom_decode-filled zstd (c ∷ b) d h e = ap or_error e

  custom_decode-compress :
      (coder : Coder) (b : Bytes)
      → Inverts
      → is_cached_name (some coder) ≡ true
      → custom_decode codecs coder (bytes (compress codecs coder b)) ≡ ok (bytes b)
  custom_decode-compress coder b inverts h =
      custom_decode-filled coder (compress codecs coder b) b (inverts coder b h).1
        (inverts coder b h).0

  abbrev result_of : Outcome Content → Content
  result_of (ok content) = content
  result_of _ = bytes []

  decode-compressed :
      (coder : Coder) (b : Bytes) (encoded : Content)
      → Inverts
      → is_cached_name (some coder) ≡ true
      → ok (bytes (compress codecs coder b)) ≡ ok encoded
      → custom_decode codecs coder encoded ≡ ok (bytes b)
  decode-compressed coder b encoded inverts h e =
      ap (custom_decode codecs coder) (sym (ap result_of e))
      ∙ custom_decode-compress coder b inverts h

  -- what a coder makes of content is decoded to that content
  custom_decode-custom_encode :
      (coder : Coder) (decoded encoded : Content)
      → Inverts
      → custom_encode codecs coder decoded ≡ ok encoded
      → custom_decode codecs coder encoded ≡ ok decoded
  unfolding custom_encode custom_decode
  custom_decode-custom_encode identity decoded encoded inverts e = sym e
  custom_decode-custom_encode gzip (bytes b) encoded inverts e =
      decode-compressed gzip b encoded inverts refl e
  custom_decode-custom_encode deflate (bytes b) encoded inverts e =
      decode-compressed deflate b encoded inverts refl e
  custom_decode-custom_encode brotli (bytes b) encoded inverts e =
      decode-compressed brotli b encoded inverts refl e
  custom_decode-custom_encode zstd (bytes b) encoded inverts e =
      decode-compressed zstd b encoded inverts refl e
  custom_decode-custom_encode gzip (str s) encoded inverts e = ground (arith, e)
  custom_decode-custom_encode deflate (str s) encoded inverts e = ground (arith, e)
  custom_decode-custom_encode brotli (str s) encoded inverts e = ground (arith, e)
  custom_decode-custom_encode zstd (str s) encoded inverts e = ground (arith, e)

  -- the same for a name that has a coder
  pub decode_as-encode_as :
      (name errors : Bytes) (coder : Coder) (decoded encoded : Content)
      → Inverts
      → custom name ≡ some coder
      → encode_as codecs name errors decoded ≡ ok encoded
      → decode_as codecs name errors encoded ≡ ok decoded
  unfolding encode_as decode_as
  decode_as-encode_as name errors coder decoded encoded inverts c e =
      rw (decode_as, c)
        (custom_decode-custom_encode coder decoded encoded inverts (rw (encode_as, c) at e))

  is_for-eq :
      (name errors : Bytes) (entry : CachedDecode)
      → is_for name errors entry ≡ true
      → (entry.encoding ≡ name) × (entry.errors ≡ errors)
  is_for-eq name errors entry h = (
    (bytes_eq_iff (entry.encoding) name).0 (ground (arith, h)),
    (bytes_eq_iff (entry.errors) errors).0 (ground (arith, h)),
  )

  -- an element that is found is right for what is looked up
  decoded_of-IsValid :
      (cache : Cache) (name errors : Bytes) (encoded decoded : Content)
      → IsValid cache
      → decoded_of cache name errors encoded ≡ some decoded
      → decode_as codecs name errors encoded ≡ ok decoded
  decoded_of-IsValid none name errors encoded decoded h e = ground (arith, e)
  decoded_of-IsValid (some entry) name errors encoded decoded h e =
      let same : same_content (entry.encoded) encoded ≡ true = ground (arith, e) in
      let right : is_for name errors entry ≡ true = ground (arith, e) in
      let found : entry.decoded ≡ decoded = ground (arith, e) in
      rw
        (
          ← (is_for-eq name errors entry right).0,
          ← (is_for-eq name errors entry right).1,
          ← same_content-eq (entry.encoded) encoded same,
          ← found,
        )
        h

  encoded_of-IsValid :
      (cache : Cache) (name errors : Bytes) (decoded encoded : Content)
      → IsValid cache
      → encoded_of cache name errors decoded ≡ some encoded
      → decode_as codecs name errors encoded ≡ ok decoded
  encoded_of-IsValid none name errors decoded encoded h e = ground (arith, e)
  encoded_of-IsValid (some entry) name errors decoded encoded h e =
      let same : same_content (entry.decoded) decoded ≡ true = ground (arith, e) in
      let right : is_for name errors entry ≡ true = ground (arith, e) in
      let found : entry.encoded ≡ encoded = ground (arith, e) in
      rw
        (
          ← (is_for-eq name errors entry right).0,
          ← (is_for-eq name errors entry right).1,
          ← same_content-eq (entry.decoded) decoded same,
          ← found,
        )
        h

  store-IsValid :
      (name : Bytes) (entry : CachedDecode) (cache : Cache)
      → (is_cached_name (custom name) ≡ true → IsValid (some entry))
      → IsValid cache
      → IsValid (store name entry cache)
  store-IsValid name entry cache new old = elim (Bool-cases (is_cached_name (custom name))) [
    | inl e ↦ rw e (new e)
    | inr e ↦ rw e old
  ]

  store_decoded-IsValid :
      (name errors : Bytes) (encoded : Content) (cache : Cache) (result : Outcome Content)
      → decode_as codecs name errors encoded ≡ result
      → IsValid cache
      → IsValid (store_decoded name errors encoded cache result)
  store_decoded-IsValid name errors encoded cache (ok decoded) e h =
      store-IsValid name _ cache (λ cached. e) h
  store_decoded-IsValid name errors encoded cache value_error e h = h
  store_decoded-IsValid name errors encoded cache type_error e h = h

  store_encoded-IsValid :
      (name errors : Bytes) (decoded : Content) (cache : Cache) (result : Outcome Content)
      → Inverts
      → encode_as codecs name errors decoded ≡ result
      → IsValid cache
      → IsValid (store_encoded name errors decoded cache result)
  store_encoded-IsValid name errors decoded cache (ok encoded) inverts e h =
      store-IsValid name _ cache
        (λ cached. elim (Option-cases (custom name)) [
          | inl c ↦ absurd (ground (arith, rw c at cached))
          | inr (coder, c) ↦ decode_as-encode_as name errors coder decoded encoded inverts c e
        ])
        h
  store_encoded-IsValid name errors decoded cache value_error inverts e h = h
  store_encoded-IsValid name errors decoded cache type_error inverts e h = h

  -- a call decodes what it would without the cache
  pub decode-IsValid :
      (encoded : Content) (encoding errors : Bytes) (cache : Cache)
      → IsValid cache
      → ((decode codecs encoded encoding errors cache).0
          ≡ decode_as codecs (codecs.lower_str encoding) errors encoded)
        × IsValid ((decode codecs encoded encoding errors cache).1)
  unfolding decode
  decode-IsValid encoded encoding errors cache h =
      let name = codecs.lower_str encoding in
      elim (Option-cases (decoded_of cache name errors encoded)) [
        | inl e ↦
            rw (decode, e)
              (
                refl,
                store_decoded-IsValid name errors encoded cache
                    (decode_as codecs name errors encoded) refl h,
              )
        | inr (decoded, e) ↦
            rw (decode, e) (sym (decoded_of-IsValid cache name errors encoded decoded h e), h)
      ]

  -- what a call encodes is what it would without the cache, or something else that is decoded to it
  abbrev pub Encodes : Bytes → Bytes → Content → Outcome Content → Type 0
  Encodes name errors decoded result =
      (result ≡ encode_as codecs name errors decoded)
      ⊎ ((encoded : Content) × ((result ≡ ok encoded)
            × (decode_as codecs name errors encoded ≡ ok decoded)))

  pub encode-IsValid :
      (decoded : Content) (encoding errors : Bytes) (cache : Cache)
      → Inverts
      → IsValid cache
      → Encodes
          (codecs.lower_str encoding)
          errors
          decoded
          ((encode codecs decoded encoding errors cache).0)
        × IsValid ((encode codecs decoded encoding errors cache).1)
  unfolding encode
  encode-IsValid decoded encoding errors cache inverts h =
      let name = codecs.lower_str encoding in
      elim (Option-cases (encoded_of cache name errors decoded)) [
        | inl e ↦
            rw (encode, e)
              (
                inl refl,
                store_encoded-IsValid name errors decoded cache
                    (encode_as codecs name errors decoded) inverts refl h,
              )
        | inr (encoded, e) ↦
            rw (encode, e)
              (inr (encoded, (refl, encoded_of-IsValid cache name errors decoded encoded h e)), h)
      ]
