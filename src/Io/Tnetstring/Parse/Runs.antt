-- ===== src/Io/Tnetstring/Parse/Runs.antt =====
-- The runs of `pop` and `parse` of mitmproxy/io/tnetstring.py without fuel: a derivation has one rule for
-- each call and each round of a loop, and ends in a result or in an exception (`none`). A loop that did not
-- stop would have no derivation.
use middle_man.Base.{
  ℕ, zero, suc, ◌≤◌, ◌≡◌, refl, Bool, true, false, Option, none, some, [], ◌∷◌, inl, inr, arith,
  length, Option-cases, Bool-cases,
}
use middle_man.Http.Text.{Bytes}
use middle_man.Io.Tnetstring.{Value, Values, nil, Entries, end}
use middle_man.Io.Tnetstring.Parts.{
  Tag, bytes_tag, str_tag, integer_tag, float_tag, boolean_tag, null_tag, list_tag, dict_tag,
  other_tag, tag_of, split_at, Parts, parts_of,
}
use middle_man.Io.Tnetstring.Parse.{
  Python, is_hashable, set_entry, with_remain, onto_values, list_of, dict_of, pop_values,
  pop_entries, parse, pop_parts, pop,
}
use middle_man.Io.Tnetstring.Parse.Shorter.{Shorter, parts_of-Shorter}
use middle_man.Io.Tnetstring.Parse.Enough.{Consumes, pop-Consumes}

-- the tags whose payload is read without a loop
abbrev pub is_loop : Tag → Bool
is_loop list_tag = true
is_loop dict_tag = true
is_loop _ = false

module _ (python : Python) where
  mutual
    -- `pop`: what follows the rest that it leaves
    pub data Pops : Bytes → Option (Value × Bytes) → Type 0 where
      cut_short : {s : Bytes} → parts_of s ≡ none → Pops s none
      parsed :
          {s payload remain : Bytes} {tag : ℕ} {o : Option Value}
          → parts_of s ≡ some (payload, (tag, remain))
          → Parses (tag_of tag) payload o
          → Pops s (with_remain remain o)

    -- `parse`; a payload without a loop is read at once
    pub data Parses : Tag → Bytes → Option Value → Type 0 where
      at_once :
          {tag : Tag} {payload : Bytes}
          → is_loop tag ≡ false
          → Parses tag payload (parse python (λ s. none) tag payload)
      as_list :
          {payload : Bytes} {o : Option Values}
          → PopsValues payload o
          → Parses list_tag payload (list_of o)
      as_dict :
          {payload : Bytes} {o : Option Entries}
          → PopsEntries end payload o
          → Parses dict_tag payload (dict_of o)

    -- the loop of a list, from some data on
    pub data PopsValues : Bytes → Option Values → Type 0 where
      no_more : PopsValues [] (some nil)
      bad_item : {c : ℕ} {s : Bytes} → Pops (c ∷ s) none → PopsValues (c ∷ s) none
      next_item :
          {c : ℕ} {s : Bytes} {item : Value} {rest : Bytes} {o : Option Values}
          → Pops (c ∷ s) (some (item, rest))
          → PopsValues rest o
          → PopsValues (c ∷ s) (onto_values item o)

    -- the loop of a dict, from a dict and some data on
    pub data PopsEntries : Entries → Bytes → Option Entries → Type 0 where
      no_entries : {d : Entries} → PopsEntries d [] (some d)
      bad_key : {d : Entries} {c : ℕ} {s : Bytes} → Pops (c ∷ s) none → PopsEntries d (c ∷ s) none
      bad_val :
          {d : Entries} {c : ℕ} {s : Bytes} {key : Value} {t : Bytes}
          → Pops (c ∷ s) (some (key, t))
          → Pops t none
          → PopsEntries d (c ∷ s) none
      unhashable :
          {d : Entries} {c : ℕ} {s : Bytes} {key val : Value} {t u : Bytes}
          → Pops (c ∷ s) (some (key, t))
          → Pops t (some (val, u))
          → is_hashable key ≡ false
          → PopsEntries d (c ∷ s) none
      next_entry :
          {d : Entries} {c : ℕ} {s : Bytes} {key val : Value} {t u : Bytes} {o : Option Entries}
          → Pops (c ∷ s) (some (key, t))
          → Pops t (some (val, u))
          → is_hashable key ≡ true
          → PopsEntries (set_entry python key val d) u o
          → PopsEntries d (c ∷ s) o

  module _ (n : ℕ) (p : Bytes → Option (Value × Bytes)) (consumes : Consumes p)
      (runs : (s : Bytes) → length s ≤ n → Pops s (p s)) where
    pop_values-PopsValues :
        (rounds : ℕ) (s : Bytes)
        → length s ≤ n
        → length s ≤ rounds
        → PopsValues s (pop_values python p rounds s)
    unfolding pop_values
    pop_values-PopsValues rounds [] h e = no_more
    pop_values-PopsValues zero (c ∷ s) h e = absurd (omega (arith, e))
    pop_values-PopsValues (suc rounds) (c ∷ s) h e = elim (Option-cases (p (c ∷ s))) [
      | inl bad ↦ rw (pop_values, bad) (bad_item (rw bad at (runs (c ∷ s) h)))
      | inr ((item, rest), there) ↦
          let shorter = consumes (c ∷ s) item rest there in
          rw (pop_values, there)
            (next_item (rw there at (runs (c ∷ s) h)) (
              pop_values-PopsValues rounds rest (omega (arith, h, shorter))
                (omega (arith, e, shorter))))
    ]

    pop_entries-PopsEntries :
        (rounds : ℕ) (d : Entries) (s : Bytes)
        → length s ≤ n
        → length s ≤ rounds
        → PopsEntries d s (pop_entries python p rounds d s)
    unfolding pop_entries
    pop_entries-PopsEntries rounds d [] h e = no_entries
    pop_entries-PopsEntries zero d (c ∷ s) h e = absurd (omega (arith, e))
    pop_entries-PopsEntries (suc rounds) d (c ∷ s) h e = elim (Option-cases (p (c ∷ s))) [
      | inl bad ↦ rw (pop_entries, bad) (bad_key (rw bad at (runs (c ∷ s) h)))
      | inr ((key, t), there) ↦
          let shorter = consumes (c ∷ s) key t there in
          let first = rw there at (runs (c ∷ s) h) in
          let again = runs t (omega (arith, h, shorter)) in
          elim (Option-cases (p t)) [
            | inl bad ↦ rw (pop_entries, there, bad) (bad_val first (rw bad at again))
            | inr ((val, u), second) ↦
                let shortest = consumes t val u second in
                elim (Bool-cases (is_hashable key)) [
                  | inl can ↦
                      rw (pop_entries, there, second, can)
                        (next_entry first (rw second at again) can (
                          pop_entries-PopsEntries rounds (set_entry python key val d) u
                            (omega (arith, h, shorter, shortest))
                            (omega (arith, e, shorter, shortest))))
                  | inr cannot ↦
                      rw (pop_entries, there, second, cannot)
                        (unhashable first (rw second at again) cannot)
                ]
          ]
    ]

  parse-Parses :
      (p : Bytes → Option (Value × Bytes)) (tag : Tag) (payload : Bytes)
      → Consumes p
      → ((s : Bytes) → length s ≤ length payload → Pops s (p s))
      → Parses tag payload (parse python p tag payload)
  unfolding parse
  parse-Parses p list_tag payload consumes runs = as_list (
      pop_values-PopsValues (length payload) p consumes runs (length payload) payload (omega arith)
        (omega arith))
  parse-Parses p dict_tag payload consumes runs = as_dict (
      pop_entries-PopsEntries (length payload) p consumes runs (length payload) end payload
        (omega arith) (omega arith))
  parse-Parses p bytes_tag payload consumes runs = at_once refl
  parse-Parses p str_tag payload consumes runs = at_once refl
  parse-Parses p integer_tag payload consumes runs = at_once refl
  parse-Parses p float_tag payload consumes runs = at_once refl
  parse-Parses p boolean_tag payload consumes runs = at_once refl
  parse-Parses p null_tag payload consumes runs = at_once refl
  parse-Parses p other_tag payload consumes runs = at_once refl

  -- On any bytes `pop` ends, in a value with the rest or in an exception, by a finite run of its calls and
  -- of the rounds of its loops; and with the length of the bytes as fuel, or with more, that is what the
  -- model gives, so that it fails for the content of the bytes only.
  pub pop-Pops : (fuel : ℕ) (s : Bytes) → length s ≤ fuel → Pops s (pop python fuel s)
  unfolding pop pop_parts parts_of split_at
  pop-Pops zero [] h = cut_short refl
  pop-Pops zero (c ∷ s) h = absurd (omega (arith, h))
  pop-Pops (suc fuel) s h =
      by_parts (parts_of s) refl (parts_of-Shorter s) (λ t e. pop-Pops fuel t e)
    where
      by_parts :
          (o : Option Parts)
          → parts_of s ≡ o
          → Shorter (length s) o
          → ((t : Bytes) → length t ≤ fuel → Pops t (pop python fuel t))
          → Pops s (pop_parts python (pop python fuel) o)
      by_parts none e shorter runs = cut_short e
      by_parts (some (payload, (tag, remain))) e shorter runs = parsed e (
          parse-Parses (pop python fuel) (tag_of tag) payload (pop-Consumes python fuel)
            (λ t f. runs t (omega (arith, f, shorter.0, h))))
