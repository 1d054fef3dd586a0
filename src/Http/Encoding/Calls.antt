-- ===== src/Http/Encoding/Calls.antt =====
-- Calls of mitmproxy/net/encoding.py one after another, with the cache that each leaves to the next.
use middle_man.Base.{◌≡◌, none, List, [], ◌∷◌}
use middle_man.Http.Text.{Bytes}
use middle_man.Http.Encoding.{Content, Outcome, Codecs, Cache, decode_as, decode, encode}
use middle_man.Http.Encoding.Cache.{Inverts, IsValid, Encodes, decode-IsValid, encode-IsValid}

-- calls of the module and their results, one after another
pub data Call : Type 0 where
  decodes encodes : Content → Bytes → Bytes → Call

module _ (codecs : Codecs) where
  unfoldable pub call : Call → Cache → Outcome Content × Cache
  unfolding decode encode
  call (decodes encoded encoding errors) cache = decode codecs encoded encoding errors cache
  call (encodes decoded encoding errors) cache = encode codecs decoded encoding errors cache

  unfoldable pub results : List Call → Cache → List (Outcome Content)
  unfolding call
  results [] cache = []
  results (c ∷ calls) cache = (call c cache).0 ∷ results calls ((call c cache).1)

  abbrev pub Right : Call → Outcome Content → Type 0
  Right (decodes encoded encoding errors) result =
      result ≡ decode_as codecs (codecs.lower_str encoding) errors encoded
  Right (encodes decoded encoding errors) result =
      Encodes codecs (codecs.lower_str encoding) errors decoded result

  abbrev pub AllRight : List Call → List (Outcome Content) → Type 0
  AllRight [] [] = Unit
  AllRight (c ∷ calls) (result ∷ results) = Right c result × AllRight calls results
  AllRight _ _ = ⊥

  call-Right :
      (c : Call) (cache : Cache)
      → Inverts codecs
      → IsValid codecs cache
      → Right c ((call c cache).0) × IsValid codecs ((call c cache).1)
  unfolding call
  call-Right (decodes encoded encoding errors) cache inverts h =
      decode-IsValid codecs encoded encoding errors cache h
  call-Right (encodes decoded encoding errors) cache inverts h =
      encode-IsValid codecs decoded encoding errors cache inverts h

  results-from :
      (calls : List Call) (cache : Cache)
      → Inverts codecs
      → IsValid codecs cache
      → AllRight calls (results calls cache)
  unfolding results
  results-from [] cache inverts h = tt
  results-from (c ∷ calls) cache inverts h =
      let right = call-Right c cache inverts h in
      (right.0, results-from calls ((call c cache).1) inverts right.1)

  -- Over any calls in any order from the empty cache, each decoding gives what it would without the
  -- cache, and each encoding what it would without, or other bytes that are decoded to the content,
  -- where the libraries read what they write.
  pub results-AllRight : (calls : List Call) → Inverts codecs → AllRight calls (results calls none)
  results-AllRight calls inverts = results-from calls none inverts tt
