-- ===== src/Http/Content/Effects.antt =====
-- What `set_content` and `get_content` of mitmproxy/http.py do to the content type and to the cache.
use middle_man.Base.{
  ℕ, ◌≡◌, refl, ◌∙◌, Bool, Option, none, some, List, [], ◌∷◌, inl, inr, Option-cases,
}
use middle_man.Multidict
use middle_man.Multidict.Laws.{del_item-Deleted}
use middle_man.Http.Text.{Bytes, codes, bytes_eq, bytes_eq_iff, lower}
use middle_man.Http.Headers.{raw_all, del_item}
use middle_man.Http.Encoding
use middle_man.Http.Encoding.{
  Content, bytes, str, Outcome, ok, value_error, type_error, Codecs, Cache, decode_as, encode_as,
  encoded_of,
}
use middle_man.Http.Encoding.Cache.{Inverts, IsValid, decode-IsValid, encode-IsValid}
use middle_man.Http.Content.{
  Message, strict_errors, or_identity, remove_encoding, content_encoding, set_encoded, set_content,
  get_decoded, get_content,
}
use middle_man.Http.Content.Lookups.{raw_all-with_length}

-- the removal of the encoding and the new length leave the content type
remove_encoding-content_type :
    (value : Content) (message : Message) (cache : Cache)
    → raw_all (codes "content-type") ((remove_encoding value message cache).message.headers)
      ≡ raw_all (codes "content-type") (message.headers)
unfolding remove_encoding raw_all del_item lower
remove_encoding-content_type value message cache =
    elim (Option-cases
      (Multidict.del_item bytes_eq lower (codes "content-encoding") (message.headers))) [
        | inl e ↦ rw (remove_encoding, e) refl
        | inr (headers, e) ↦
            rw (remove_encoding, e)
              (raw_all-with_length (codes "content-type") value headers refl
                ∙ (rw e at (
                      del_item-Deleted bytes_eq lower bytes_eq_iff (codes "content-encoding")
                        (message.headers))).1
                    (codes "content-type"))
      ]

module _ (native : Bytes → List ℕ) (codecs : Codecs) where
  pub set_encoded-content_type :
      (value : Content) (message : Message) (result : Outcome Content × Cache)
      → raw_all
          (codes "content-type")
          ((set_encoded native codecs value message result).message.headers)
        ≡ raw_all (codes "content-type") (message.headers)
  unfolding lower
  set_encoded-content_type value message (ok raw, cache) =
      raw_all-with_length (codes "content-type") raw (message.headers) refl
  set_encoded-content_type value message (value_error, cache) =
      remove_encoding-content_type value message cache
  set_encoded-content_type value message (type_error, cache) = refl

  remove_encoding-cache :
      (value : Content) (message : Message) (cache : Cache)
      → (remove_encoding value message cache).cache ≡ cache
  unfolding remove_encoding
  remove_encoding-cache value message cache =
      elim (Option-cases (del_item (codes "content-encoding") (message.headers))) [
        | inl e ↦ rw (remove_encoding, e) refl
        | inr (headers, e) ↦ rw (remove_encoding, e) refl
      ]

  set_encoded-cache :
      (value : Content) (message : Message) (result : Outcome Content × Cache)
      → (set_encoded native codecs value message result).cache ≡ result.1
  set_encoded-cache value message (ok raw, cache) = refl
  set_encoded-cache value message (value_error, cache) = remove_encoding-cache value message cache
  set_encoded-cache value message (type_error, cache) = refl

  -- `set_content` and `get_content` leave a cache that is right
  pub set_content-IsValid :
      (b : Bytes) (message : Message) (cache : Cache)
      → Inverts codecs
      → IsValid codecs cache
      → IsValid codecs ((set_content native codecs (some (bytes b)) message cache).cache)
  unfolding set_content
  set_content-IsValid b message cache inverts valid =
      let ce = or_identity (content_encoding native (message.headers)) in
      rw
        (set_encoded-cache (bytes b) message
          (Encoding.encode codecs (bytes b) ce strict_errors cache))
        (encode-IsValid codecs (bytes b) ce strict_errors cache inverts valid).1

  get_decoded-IsValid :
      (strict : Bool) (raw : Content) (ce : Option Bytes) (cache : Cache)
      → IsValid codecs cache
      → IsValid codecs ((get_decoded native codecs strict raw ce cache).1)
  get_decoded-IsValid strict raw none cache valid = valid
  get_decoded-IsValid strict raw (some []) cache valid = valid
  get_decoded-IsValid strict raw (some (c ∷ ce)) cache valid =
      (decode-IsValid codecs raw (c ∷ ce) strict_errors cache valid).1

  pub get_content-IsValid :
      (strict : Bool) (message : Message) (cache : Cache)
      → IsValid codecs cache
      → IsValid codecs ((get_content native codecs strict message cache).1)
  unfolding get_content
  get_content-IsValid strict message cache valid = elim (Option-cases (message.raw_content)) [
    | inl e ↦ rw (get_content, e) valid
    | inr (raw, e) ↦
        rw (get_content, e)
          (get_decoded-IsValid strict raw (content_encoding native (message.headers)) cache valid)
  ]

  -- the cache has no results for texts
  encoded_of-str :
      (cache : Cache) (name errors t : Bytes) → encoded_of cache name errors (str t) ≡ none
  encoded_of-str none name errors t = refl
  encoded_of-str (some entry) name errors t = refl

  pub encode-str :
      (t enc : Bytes) (cache : Cache)
      → (Encoding.encode codecs (str t) enc strict_errors cache).0
        ≡ encode_as codecs (codecs.lower_str enc) strict_errors (str t)
  unfolding Encoding.encode
  encode-str t enc cache =
      rw (Encoding.encode, encoded_of-str cache (codecs.lower_str enc) strict_errors t) refl
