-- ===== src/Io/Tnetstring/Format.antt =====
-- The format of tnetstrings, a length in front and a tag behind, and that the deque with its running
-- sizes holds it.
use middle_man.Base.{
  ℕ, ◌+◌, ◌-◌, ◌≡◌, refl, ◌∙◌, ap, sym, true, false, Option, none, some, List, [], ◌∷◌, ◌++◌,
  append_assoc, append-nil, length, length-append, arith,
}
use middle_man.Http.Text.{Bytes, codes}
use middle_man.Http.Assemble.{decimal, digits_from, concat}
use middle_man.Io.Tnetstring.{
  Value, null, boolean, integer, float, bytes, str, list, dict, Values, nil, cons, Entries, end,
  entry, int_text, write_as, write_parts, write_span, then, enclosed, write_text, _rdumpq,
  rdump_values, rdump_entries, dumps,
}

-- one netstring
unfoldable pub netstring : ℕ → Bytes → Bytes
unfolding decimal
netstring tag payload = decimal (length payload) ++ (b':' ∷ (payload ++ tag ∷ []))

abbrev pub tagged : ℕ → Option Bytes → Option Bytes
tagged tag none = none
tagged tag (some payload) = some (netstring tag payload)

abbrev pub both : Option Bytes → Option Bytes → Option Bytes
both none other = none
both (some s) none = none
both (some s) (some t) = some (s ++ t)

module _ (utf8_encode : Bytes → Option Bytes) where
  unfoldable mutual
    unfolding netstring int_text

    pub encode : Value → Option Bytes
    encode null = some (netstring b'~' [])
    encode (boolean true) = some (netstring b'!' (codes "true"))
    encode (boolean false) = some (netstring b'!' (codes "false"))
    encode (integer n) = some (netstring b'#' (int_text n))
    encode (float payload) = some (netstring b'^' payload)
    encode (bytes payload) = some (netstring b',' payload)
    encode (str s) = tagged b';' (utf8_encode s)
    encode (list values) = tagged b']' (encode_values values)
    encode (dict entries) = tagged b'}' (encode_entries entries)

    pub encode_values : Values → Option Bytes
    encode_values nil = some []
    encode_values (cons item values) = both (encode item) (encode_values values)

    -- the last pair stands first
    pub encode_entries : Entries → Option Bytes
    encode_entries end = some []
    encode_entries (entry k v entries) = both (encode_entries entries) (both (encode k) (encode v))

-- what a queue gets in front: the bytes, with their length; none when they cannot be written
abbrev Writes : Option (List Bytes × ℕ) → Option Bytes → List Bytes × ℕ → Type 0
Writes none none old = Unit
Writes none (some s) old = ⊥
Writes (some new) none old = ⊥
Writes (some new) (some s) old = (concat (new.0) ≡ s ++ concat (old.0)) × (new.1 ≡ old.1 + length s)

length-netstring :
    (tag : ℕ) (payload : Bytes)
    → length (netstring tag payload) ≡ 2 + length (decimal (length payload)) + length payload
unfolding netstring
length-netstring tag payload =
    length-append (decimal (length payload)) (b':' ∷ (payload ++ tag ∷ []))
    ∙ omega (arith, length-append payload (tag ∷ []))

write_as-Writes :
    (tag : ℕ) (payload : Bytes) (old : List Bytes × ℕ)
    → Writes (some (write_as tag payload old)) (some (netstring tag payload)) old
unfolding write_as netstring
write_as-Writes tag payload (q, size) = (refl, omega (arith, length-netstring tag payload))

write_parts-Writes :
    (tag : ℕ) (payload : Bytes) (old : List Bytes × ℕ)
    → Writes (some (write_parts tag payload old)) (some (netstring tag payload)) old
unfolding write_parts netstring
write_parts-Writes tag payload (q, size) =
    (rw (append_assoc, append_assoc) refl, omega (arith, length-netstring tag payload))

then-Writes :
    (new : Option (List Bytes × ℕ)) (more : List Bytes × ℕ → Option (List Bytes × ℕ))
    (s t : Option Bytes) (old : List Bytes × ℕ)
    → Writes new t old
    → ((state : List Bytes × ℕ) → Writes (more state) s state)
    → Writes (then new more) (both s t) old
then-Writes none more none none old h f = tt
then-Writes none more (some s) none old h f = tt
then-Writes none more s (some t) old h f = absurd h
then-Writes (some state) more s none old h f = absurd h
then-Writes (some state) more none (some t) old h f = by_more (more state) (f state)
  where
    by_more : (new : Option (List Bytes × ℕ)) → Writes new none state → Writes new none old
    by_more none h = tt
    by_more (some new) h = absurd h
then-Writes (some state) more (some s) (some t) old h f = by_more (more state) (f state)
  where
    by_more :
        (new : Option (List Bytes × ℕ)) → Writes new (some s) state → Writes new (some (s ++ t)) old
    by_more none e = absurd e
    by_more (some new) e = (
      e.0 ∙ ap (λ u. s ++ u) h.0 ∙ sym (append_assoc s t (concat old.0)),
      omega (arith, e.1, h.1, length-append s t),
    )

write_span-Writes :
    (s : Bytes) (tag : ℕ) (new old : List Bytes × ℕ)
    → Writes (some new) (some s) ((tag ∷ []) ∷ old.0, old.1 + 1)
    → Writes (some (write_span (old.1 + 1) new)) (some (netstring tag s)) old
unfolding write_span netstring
write_span-Writes s tag new old h =
    let payload : new.1 - (old.1 + 1) ≡ length s = omega (arith, h.1) in
    (
      ap (λ n. decimal n ++ (b':' ∷ concat (new.0))) payload
          ∙ ap (λ q. decimal (length s) ++ (b':' ∷ q)) h.0
          ∙ rw (append_assoc, append_assoc) refl,
      (ap (λ n. new.1 + 1 + length (decimal n)) payload
          ∙ omega (arith, h.1, length-netstring tag s)),
    )

enclosed-Writes :
    (content : List Bytes × ℕ → Option (List Bytes × ℕ)) (s : Option Bytes) (tag : ℕ)
    (old : List Bytes × ℕ)
    → ((state : List Bytes × ℕ) → Writes (content state) s state)
    → Writes (enclosed content tag old) (tagged tag s) old
enclosed-Writes content s tag (q, size) h = by_content (content start) s (h start)
  where
    start : List Bytes × ℕ
    start = ((tag ∷ []) ∷ q, size + 1)

    by_content :
        (new : Option (List Bytes × ℕ)) (s : Option Bytes)
        → Writes new s ((tag ∷ []) ∷ q, size + 1)
        → Writes (then new (λ state. some (write_span (size + 1) state))) (tagged tag s) (q, size)
    by_content none none h = tt
    by_content none (some s) h = absurd h
    by_content (some new) none h = absurd h
    by_content (some new) (some s) h = write_span-Writes s tag new (q, size) h

module _ (utf8_encode : Bytes → Option Bytes) where
  write_text-Writes :
      (s : Bytes) (old : List Bytes × ℕ)
      → Writes (write_text utf8_encode s old) (tagged b';' (utf8_encode s)) old
  write_text-Writes s old = by_encoded (utf8_encode s)
    where
      by_encoded :
          (encoded : Option Bytes)
          → Writes
              (elim encoded [ none ↦ none | some payload ↦ some (write_parts b';' payload old) ])
              (tagged b';' encoded)
              old
      by_encoded none = tt
      by_encoded (some payload) = write_parts-Writes b';' payload old

  mutual
    unfolding _rdumpq encode netstring digits_from

    _rdumpq-Writes :
        (value : Value) (old : List Bytes × ℕ)
        → Writes (_rdumpq utf8_encode value old) (encode utf8_encode value) old
    _rdumpq-Writes null (q, size) = (refl, refl)
    _rdumpq-Writes (boolean true) (q, size) = (refl, refl)
    _rdumpq-Writes (boolean false) (q, size) = (refl, refl)
    _rdumpq-Writes (integer n) old = write_as-Writes b'#' (int_text n) old
    _rdumpq-Writes (float payload) old = write_as-Writes b'^' payload old
    _rdumpq-Writes (bytes payload) old = write_parts-Writes b',' payload old
    _rdumpq-Writes (str s) old = write_text-Writes s old
    _rdumpq-Writes (list values) old =
        enclosed-Writes (rdump_values utf8_encode values) (encode_values utf8_encode values) b']'
          old (rdump_values-Writes values)
    _rdumpq-Writes (dict entries) old =
        enclosed-Writes (rdump_entries utf8_encode entries) (encode_entries utf8_encode entries)
          b'}' old (rdump_entries-Writes entries)

    rdump_values-Writes :
        (values : Values) (old : List Bytes × ℕ)
        → Writes (rdump_values utf8_encode values old) (encode_values utf8_encode values) old
    rdump_values-Writes nil old = (refl, omega arith)
    rdump_values-Writes (cons item values) old =
        then-Writes (rdump_values utf8_encode values old) (_rdumpq utf8_encode item)
          (encode utf8_encode item) (encode_values utf8_encode values) old
          (rdump_values-Writes values old) (_rdumpq-Writes item)

    rdump_entries-Writes :
        (entries : Entries) (old : List Bytes × ℕ)
        → Writes (rdump_entries utf8_encode entries old) (encode_entries utf8_encode entries) old
    rdump_entries-Writes end old = (refl, omega arith)
    rdump_entries-Writes (entry k v entries) old =
        then-Writes (then (_rdumpq utf8_encode v old) (_rdumpq utf8_encode k))
          (rdump_entries utf8_encode entries) (encode_entries utf8_encode entries)
          (both (encode utf8_encode k) (encode utf8_encode v)) old
          (then-Writes (_rdumpq utf8_encode v old) (_rdumpq utf8_encode k) (encode utf8_encode k)
            (encode utf8_encode v) old (_rdumpq-Writes v old) (_rdumpq-Writes k))
          (rdump_entries-Writes entries)

  -- What is written last chunk first, with running sizes for the spans, is the tnetstring of the value:
  -- length, colon, payload and tag, where a text has the tag `;` and bytes the tag `,` (the docstring of the
  -- module shows `,` for a text). It fails exactly where a text has no encoding.
  pub dumps-encode : (value : Value) → dumps utf8_encode value ≡ encode utf8_encode value
  unfolding dumps
  dumps-encode value =
      by_queue (_rdumpq utf8_encode value ([], 0)) (encode utf8_encode value)
        (_rdumpq-Writes value ([], 0))
    where
      by_queue :
          (new : Option (List Bytes × ℕ)) (s : Option Bytes)
          → Writes new s ([], 0)
          → (elim new as (λ n. Option Bytes) [ none ↦ none | some state ↦ some (concat (state.0)) ])
            ≡ s
      by_queue none none h = refl
      by_queue none (some s) h = absurd h
      by_queue (some new) none h = absurd h
      by_queue (some new) (some s) h = ap some (h.0 ∙ append-nil s)
