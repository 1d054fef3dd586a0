-- ===== src/Io/Tnetstring/Parse/Rounds.antt =====
-- The rounds in which lists and dicts are read from bytes whose parts are read.
use middle_man.Base.{
  ℕ, zero, suc, ◌+◌, ◌-◌, ◌≤◌, ◌≡◌, refl, ◌∙◌, ap, sym, true, Option, none, some, [], ◌∷◌, ◌++◌,
  append_assoc, append-nil, arith, length, length-append,
}
use middle_man.Http.Text.{Bytes}
use middle_man.Http.Assemble.Response.{is_filled}
use middle_man.Io.Tnetstring.{Value, list, dict, Values, cons, Entries, end, entry}
use middle_man.Io.Tnetstring.Format.{netstring, tagged, both}
use middle_man.Io.Tnetstring.Parts.{tag_of}
use middle_man.Io.Tnetstring.Parse.{
  Python, is_hashable, set_entry, pop_values, pop_entries, parse, pop, load, loaded, list_of,
  dict_of, onto_values,
}
use middle_man.Io.Tnetstring.Parse.Netstring.{netstring-filled, pop-netstring, load-netstring}
use middle_man.Io.Tnetstring.Parse.Storable.{add_last, is_fresh, set_entry-fresh}

module _ (python : Python) where
  -- bytes that are read as a value in front of any others, with the fuel of their length, or from a file
  abbrev pub Reads : Option Bytes → Value → Type 0
  Reads none value = Unit
  Reads (some s) value =
      (is_filled s ≡ true)
      × (((rest : Bytes) (fuel : ℕ)
            → length s ≤ fuel
            → pop python fuel (s ++ rest) ≡ some (value, rest))
          × ((rest : Bytes)
              → length s ≤ 999999999999
              → load python (s ++ rest) ≡ loaded value rest))

  abbrev pub ReadsValues : Option Bytes → Values → Type 0
  ReadsValues none values = Unit
  ReadsValues (some s) values =
      (fuel rounds : ℕ)
      → length s ≤ fuel
      → length s ≤ rounds
      → pop_values python (pop python fuel) rounds s ≡ some values

  abbrev pub count : Entries → ℕ
  count end = 0
  count (entry k v entries) = suc (count entries)

  -- a round for each pair
  abbrev pub ReadsEntries : Option Bytes → ℕ → Entries → Type 0
  ReadsEntries none pairs entries = Unit
  ReadsEntries (some s) pairs entries =
      (pairs ≤ length s)
      × ((rest : Bytes) (fuel rounds : ℕ)
          → length s ≤ fuel
          → pop_entries python (pop python fuel) (pairs + rounds) end (s ++ rest)
            ≡ pop_entries python (pop python fuel) rounds entries rest)

  pop_values-cons :
      (fuel rounds c : ℕ) (s t : Bytes) (item : Value)
      → pop python fuel (c ∷ s) ≡ some (item, t)
      → pop_values python (pop python fuel) (suc rounds) (c ∷ s)
        ≡ onto_values item (pop_values python (pop python fuel) rounds t)
  unfolding pop_values
  pop_values-cons fuel rounds c s t item e = rw (pop_values, e) refl

  pop_values-next :
      (fuel rounds : ℕ) (s t : Bytes) (item : Value)
      → is_filled s ≡ true
      → pop python fuel (s ++ t) ≡ some (item, t)
      → pop_values python (pop python fuel) (suc rounds) (s ++ t)
        ≡ onto_values item (pop_values python (pop python fuel) rounds t)
  pop_values-next fuel rounds [] t item filled e = ground (arith, filled)
  pop_values-next fuel rounds (c ∷ s) t item filled e =
      pop_values-cons fuel rounds c (s ++ t) t item e

  filled-length : (s : Bytes) → is_filled s ≡ true → 1 ≤ length s
  filled-length [] h = ground (arith, h)
  filled-length (c ∷ s) h = omega arith

  pub both-ReadsValues :
      (s t : Option Bytes) (item : Value) (values : Values)
      → Reads s item
      → ReadsValues t values
      → ReadsValues (both s t) (cons item values)
  both-ReadsValues none t item values h e = tt
  both-ReadsValues (some s) none item values h e = tt
  both-ReadsValues (some s) (some t) item values h e = by_rounds
    where
      by_rounds :
          (fuel rounds : ℕ)
          → length (s ++ t) ≤ fuel
          → length (s ++ t) ≤ rounds
          → pop_values python (pop python fuel) rounds (s ++ t) ≡ some (cons item values)
      by_rounds fuel zero f r = absurd (omega (arith, r, filled-length s h.0, length-append s t))
      by_rounds fuel (suc rounds) f r =
          pop_values-next fuel rounds s t item h.0
            (h.1.0 t fuel (omega (arith, f, length-append s t)))
          ∙ ap (onto_values item) (
              e fuel rounds (omega (arith, f, length-append s t))
                (omega (arith, r, filled-length s h.0, length-append s t)))

  pop_entries-cons :
      (fuel rounds c : ℕ) (s t rest : Bytes) (key val : Value) (d : Entries)
      → is_hashable key ≡ true
      → pop python fuel (c ∷ s) ≡ some (key, t)
      → pop python fuel t ≡ some (val, rest)
      → pop_entries python (pop python fuel) (suc rounds) d (c ∷ s)
        ≡ pop_entries python (pop python fuel) rounds (set_entry python key val d) rest
  unfolding pop_entries
  pop_entries-cons fuel rounds c s t rest key val d h e f = rw (pop_entries, e, f, h) refl

  -- a round of a dict: a key, its value, and the dict with them
  pop_entries-next :
      (fuel rounds : ℕ) (k v rest : Bytes) (key val : Value) (d : Entries)
      → is_filled k ≡ true
      → is_hashable key ≡ true
      → pop python fuel (k ++ (v ++ rest)) ≡ some (key, v ++ rest)
      → pop python fuel (v ++ rest) ≡ some (val, rest)
      → pop_entries python (pop python fuel) (suc rounds) d (k ++ (v ++ rest))
        ≡ pop_entries python (pop python fuel) rounds (set_entry python key val d) rest
  pop_entries-next fuel rounds [] v rest key val d filled h e f = ground (arith, filled)
  pop_entries-next fuel rounds (c ∷ k) v rest key val d filled h e f =
      pop_entries-cons fuel rounds c (k ++ (v ++ rest)) (v ++ rest) rest key val d h e f

  pub both-ReadsEntries :
      (s k v : Option Bytes) (key val : Value) (pairs : ℕ) (d : Entries)
      → ReadsEntries s pairs d
      → Reads k key
      → Reads v val
      → is_hashable key ≡ true
      → is_fresh python key d ≡ true
      → ReadsEntries (both s (both k v)) (suc pairs) (add_last key val d)
  both-ReadsEntries none k v key val pairs d hs hk hv hash fresh = tt
  both-ReadsEntries (some s) none v key val pairs d hs hk hv hash fresh = tt
  both-ReadsEntries (some s) (some k) none key val pairs d hs hk hv hash fresh = tt
  both-ReadsEntries (some s) (some k) (some v) key val pairs d hs hk hv hash fresh =
      (omega (arith, sizes.0, sizes.1, hs.0, filled-length k hk.0), by_rounds)
    where
      sizes :
          (length (s ++ (k ++ v)) ≡ length s + length (k ++ v))
          × (length (k ++ v) ≡ length k + length v)
      sizes = (length-append s (k ++ v), length-append k v)

      by_rounds :
          (rest : Bytes) (fuel rounds : ℕ)
          → length (s ++ (k ++ v)) ≤ fuel
          → pop_entries python (pop python fuel) (suc pairs + rounds) end ((s ++ (k ++ v)) ++ rest)
            ≡ pop_entries python (pop python fuel) rounds (add_last key val d) rest
      by_rounds rest fuel rounds h =
          ap (λ n. pop_entries python (pop python fuel) n end ((s ++ (k ++ v)) ++ rest))
            (omega arith)
          ∙ ap (pop_entries python (pop python fuel) (pairs + suc rounds) end)
              (rw (append_assoc, append_assoc) refl)
          ∙ hs.1 (k ++ (v ++ rest)) fuel (suc rounds) (omega (arith, sizes.0, h))
          ∙ pop_entries-next fuel rounds k v rest key val d hk.0 hash
              (hk.1.0 (v ++ rest) fuel (omega (arith, sizes.0, sizes.1, h)))
              (hv.1.0 rest fuel (omega (arith, sizes.0, sizes.1, h)))
          ∙ ap (λ d. pop_entries python (pop python fuel) rounds d rest)
              (set_entry-fresh python key val d fresh)

  -- a netstring of a payload that is parsed, once its fuel is there
  pub Reads-netstring :
      (tag : ℕ) (payload : Bytes) (value : Value)
      → ((fuel : ℕ)
          → length payload ≤ fuel
          → parse python (pop python fuel) (tag_of tag) payload ≡ some value)
      → Reads (some (netstring tag payload)) value
  Reads-netstring tag payload value h = (
    netstring-filled tag payload,
    (
      λ rest fuel enough. pop-netstring python tag payload rest value fuel enough h,
      λ rest bound. load-netstring python tag payload rest value bound h,
    ),
  )

  pub Reads-list :
      (payload : Option Bytes) (values : Values)
      → ReadsValues payload values
      → Reads (tagged b']' payload) (list values)
  unfolding parse tag_of
  Reads-list none values h = tt
  Reads-list (some payload) values h =
      Reads-netstring b']' payload (list values)
        (λ fuel enough. ap list_of (h fuel (length payload) enough (omega arith)))

  pub Reads-dict :
      (payload : Option Bytes) (pairs : ℕ) (entries : Entries)
      → ReadsEntries payload pairs entries
      → Reads (tagged b'}' payload) (dict entries)
  unfolding parse tag_of pop_entries
  Reads-dict none pairs entries h = tt
  Reads-dict (some payload) pairs entries h =
      Reads-netstring b'}' payload (dict entries) (λ fuel enough. ap dict_of (
        ap (λ n. pop_entries python (pop python fuel) n end payload) (omega (arith, h.0))
        ∙ ap (pop_entries python (pop python fuel) (pairs + (length payload - pairs)) end)
            (sym (append-nil payload))
        ∙ h.1 [] fuel (length payload - pairs) enough
        ∙ end_of fuel (length payload - pairs)))
    where
      end_of :
          (fuel rounds : ℕ) → pop_entries python (pop python fuel) rounds entries [] ≡ some entries
      end_of fuel zero = refl
      end_of fuel (suc rounds) = refl
