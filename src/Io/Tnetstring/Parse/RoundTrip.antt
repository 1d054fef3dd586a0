-- ===== src/Io/Tnetstring/Parse/RoundTrip.antt =====
-- What `dumps` writes is read back, with the pairs of every dict in the reverse order.
use mathlib.Core.Path.{subst}
use middle_man.Base.{
  sym, length, append-nil, ◌++◌, ◌≤◌, ◌∙◌, ℕ, zero, suc, ◌≡◌, refl, ap, true, false, Option, none,
  some, [], arith,
}
use middle_man.Http.Text.{Bytes, codes}
use middle_man.Io.Tnetstring.{
  Value, null, boolean, integer, float, bytes, str, list, dict, Values, nil, cons, Entries, end,
  entry, int_text,
}
use middle_man.Io.Tnetstring.Format.{tagged, encode, encode_values, encode_entries}
use middle_man.Io.Tnetstring.Parts.{tag_of}
use middle_man.Io.Tnetstring.Parse.{Python, pop_values, parse, pop, str_of, float_of}
use middle_man.Io.Tnetstring.Parse.Netstring.{read_int-int_text}
use middle_man.Io.Tnetstring.Format.{dumps-encode}
use middle_man.Io.Tnetstring.{dumps}
use middle_man.Io.Tnetstring.Parse.{loads, load, loaded, pop_entries, pop_values}
use middle_man.Io.Tnetstring.Parse.Storable.{
  flipped, flipped_values, flipped_entries, IsStorable, IsStorableValues, IsStorableEntries,
  fresh-flipped, flipped-hashable,
}
use middle_man.Io.Tnetstring.Parse.Rounds.{
  Reads, ReadsValues, ReadsEntries, count, both-ReadsValues, both-ReadsEntries, Reads-netstring,
  Reads-list, Reads-dict,
}

module _ (python : Python) (utf8_encode : Bytes → Option Bytes)
    (decodes : (s b : Bytes) → utf8_encode s ≡ some b → python.utf8_decode b ≡ some s) where
  Reads-str : (s : Bytes) → Reads python (tagged b';' (utf8_encode s)) (str s)
  unfolding parse tag_of
  Reads-str s = by_encoded (utf8_encode s) (λ b e. decodes s b e)
    where
      by_encoded :
          (encoded : Option Bytes)
          → ((b : Bytes) → encoded ≡ some b → python.utf8_decode b ≡ some s)
          → Reads python (tagged b';' encoded) (str s)
      by_encoded none h = tt
      by_encoded (some b) h =
          Reads-netstring python b';' b (str s) (λ fuel enough. ap str_of (h b refl))

  mutual
    unfolding encode flipped IsStorable parse tag_of

    Reads-encode :
        (value : Value)
        → IsStorable python value
        → Reads python (encode utf8_encode value) (flipped value)
    Reads-encode null h = Reads-netstring python b'~' [] null (λ fuel enough. refl)
    Reads-encode (boolean true) h =
        Reads-netstring python b'!' (codes "true") (boolean true) (λ fuel enough. refl)
    Reads-encode (boolean false) h =
        Reads-netstring python b'!' (codes "false") (boolean false) (λ fuel enough. refl)
    Reads-encode (integer n) h =
        Reads-netstring python b'#' (int_text n) (integer n) (λ fuel enough. read_int-int_text n)
    Reads-encode (float repr) h =
        Reads-netstring python b'^' repr (float repr) (λ fuel enough. ap float_of h)
    Reads-encode (bytes payload) h =
        Reads-netstring python b',' payload (bytes payload) (λ fuel enough. refl)
    Reads-encode (str s) h = Reads-str s
    Reads-encode (list values) h =
        Reads-list python (encode_values utf8_encode values) (flipped_values values)
          (Reads-encode_values values h)
    Reads-encode (dict entries) h =
        Reads-dict python (encode_entries utf8_encode entries) (count python entries)
          (flipped_entries entries) (Reads-encode_entries entries h)

    Reads-encode_values :
        (values : Values)
        → IsStorableValues python values
        → ReadsValues python (encode_values utf8_encode values) (flipped_values values)
    Reads-encode_values nil h = λ fuel rounds f r. by_rounds fuel rounds
      where
        by_rounds : (fuel rounds : ℕ) → pop_values python (pop python fuel) rounds [] ≡ some nil
        by_rounds fuel zero = refl
        by_rounds fuel (suc rounds) = refl
    Reads-encode_values (cons item values) h =
        both-ReadsValues python (encode utf8_encode item) (encode_values utf8_encode values)
          (flipped item) (flipped_values values) (Reads-encode item h.0)
          (Reads-encode_values values h.1)

    Reads-encode_entries :
        (entries : Entries)
        → IsStorableEntries python entries
        → ReadsEntries python
            (encode_entries utf8_encode entries)
            (count python entries)
            (flipped_entries entries)
    Reads-encode_entries end h = (
      omega arith,
      λ rest fuel rounds enough.
          ap (λ n. pop_entries python (pop python fuel) n end rest) (omega arith),
    )
    Reads-encode_entries (entry k v entries) h =
        both-ReadsEntries python (encode_entries utf8_encode entries) (encode utf8_encode k)
          (encode utf8_encode v) k (flipped v) (count python entries) (flipped_entries entries)
          (Reads-encode_entries entries (h.1.1.1))
          (subst (Reads python (encode utf8_encode k)) (flipped-hashable python k h.0.0)
            (Reads-encode k h.1.0))
          (Reads-encode v h.1.1.0) h.0.0 (fresh-flipped python k entries h.0.1)

  Reads-dumps :
      (value : Value) (s : Bytes)
      → dumps utf8_encode value ≡ some s
      → IsStorable python value
      → Reads python (some s) (flipped value)
  Reads-dumps value s e h =
      subst (λ o. Reads python o (flipped value)) (sym (dumps-encode utf8_encode value) ∙ e)
        (Reads-encode value h)

  -- What `dumps` writes of a storable value is read by `loads`, and by `load` in front of any other bytes
  -- unless it is longer than twelve digits can say; every dict comes back with its pairs in the
  -- reverse order, texts come back as texts and bytes as bytes, keys of dicts included.
  pub load-dumps :
      (value : Value) (s rest : Bytes)
      → dumps utf8_encode value ≡ some s
      → IsStorable python value
      → length s ≤ 999999999999
      → (loads python s ≡ some (flipped value))
        × (load python (s ++ rest) ≡ loaded (flipped value) rest)
  unfolding loads
  load-dumps value s rest e h bound =
      let reads = Reads-dumps value s e h in
      let popped : pop python (length s) s ≡ some (flipped value, []) =
        ap (pop python (length s)) (sym (append-nil s)) ∙ reads.1.0 [] (length s) (omega arith) in
      (rw (loads, popped) refl, reads.1.1 rest bound)
