-- ===== src/Io/Tnetstring/Parse/Enough.antt =====
-- Bytes are read with the fuel and the rounds of their length as with any more.
use middle_man.Base.{
  ℕ, zero, suc, ◌≤◌, ◌<◌, ◌≡◌, refl, ap, Bool, true, false, Option, none, some, [], ◌∷◌, inl, inr,
  arith, length, Option-cases,
}
use middle_man.Http.Text.{Bytes}
use middle_man.Io.Tnetstring.{Value, Entries, end}
use middle_man.Io.Tnetstring.Parts.{
  Tag, bytes_tag, str_tag, integer_tag, float_tag, boolean_tag, null_tag, list_tag, dict_tag,
  other_tag, tag_of, split_at, Parts, parts_of,
}
use middle_man.Io.Tnetstring.Parse.{
  Python, is_hashable, set_entry, with_remain, onto_values, list_of, dict_of, pop_values,
  pop_entries, parse, pop_parts, pop,
}
use middle_man.Io.Tnetstring.Parse.Shorter.{Shorter, parts_of-Shorter}

-- what is read takes a byte at least
abbrev pub Consumes : (Bytes → Option (Value × Bytes)) → Type 0
Consumes p = (s : Bytes) (v : Value) (rest : Bytes) → p s ≡ some (v, rest) → length rest < length s

-- two readers that agree on bytes of a length at most
abbrev pub Agree : ℕ → (Bytes → Option (Value × Bytes)) → (Bytes → Option (Value × Bytes)) → Type 0
Agree n p q = (s : Bytes) → length s ≤ n → p s ≡ q s

module _ (python : Python) where
  with_remain-Consumes :
      (o : Option Value) (v : Value) (remain rest : Bytes)
      → with_remain remain o ≡ some (v, rest)
      → length rest ≡ length remain
  with_remain-Consumes none v remain rest e = ground (arith, e)
  with_remain-Consumes (some value) v remain rest e = ground (arith, e)

  pub pop-Consumes : (fuel : ℕ) → Consumes (pop python fuel)
  unfolding pop pop_parts
  pop-Consumes zero s v rest e = ground (arith, e)
  pop-Consumes (suc fuel) s v rest e = by_parts (parts_of s) (parts_of-Shorter s) e
    where
      by_parts :
          (o : Option Parts)
          → Shorter (length s) o
          → pop_parts python (pop python fuel) o ≡ some (v, rest)
          → length rest < length s
      by_parts none h e = ground (arith, e)
      by_parts (some (payload, (tag, remain))) h e = omega (
        arith,
        h.1,
        with_remain-Consumes (parse python (pop python fuel) (tag_of tag) payload) v remain rest e,
      )

  module _ (p q : Bytes → Option (Value × Bytes)) (consumes : Consumes p) where
    pop_values-Agree :
        (n rounds rounds' : ℕ) (s : Bytes)
        → Agree n p q
        → length s ≤ n
        → length s ≤ rounds
        → length s ≤ rounds'
        → pop_values python p rounds s ≡ pop_values python q rounds' s
    unfolding pop_values
    pop_values-Agree n zero zero [] h e f g = refl
    pop_values-Agree n zero (suc rounds') [] h e f g = refl
    pop_values-Agree n (suc rounds) zero [] h e f g = refl
    pop_values-Agree n (suc rounds) (suc rounds') [] h e f g = refl
    pop_values-Agree n zero rounds' (c ∷ s) h e f g = absurd (omega (arith, f))
    pop_values-Agree n (suc rounds) zero (c ∷ s) h e f g = absurd (omega (arith, g))
    pop_values-Agree n (suc rounds) (suc rounds') (c ∷ s) h e f g =
        elim (Option-cases (p (c ∷ s))) [
          | inl none_there ↦ rw (pop_values, ← h (c ∷ s) e, none_there) refl
          | inr (found, there) ↦
              let shorter = consumes (c ∷ s) (found.0) (found.1) there in
              rw (pop_values, ← h (c ∷ s) e, there)
                (ap (onto_values (found.0)) (
                  pop_values-Agree n rounds rounds' (found.1) h (omega (arith, e, shorter))
                    (omega (arith, f, shorter)) (omega (arith, g, shorter))))
        ]

    pop_entries-Agree :
        (n rounds rounds' : ℕ) (d : Entries) (s : Bytes)
        → Agree n p q
        → length s ≤ n
        → length s ≤ rounds
        → length s ≤ rounds'
        → pop_entries python p rounds d s ≡ pop_entries python q rounds' d s
    unfolding pop_entries
    pop_entries-Agree n zero zero d [] h e f g = refl
    pop_entries-Agree n zero (suc rounds') d [] h e f g = refl
    pop_entries-Agree n (suc rounds) zero d [] h e f g = refl
    pop_entries-Agree n (suc rounds) (suc rounds') d [] h e f g = refl
    pop_entries-Agree n zero rounds' d (c ∷ s) h e f g = absurd (omega (arith, f))
    pop_entries-Agree n (suc rounds) zero d (c ∷ s) h e f g = absurd (omega (arith, g))
    pop_entries-Agree n (suc rounds) (suc rounds') d (c ∷ s) h e f g =
        elim (Option-cases (p (c ∷ s))) [
          | inl no_key ↦ rw (pop_entries, ← h (c ∷ s) e, no_key) refl
          | inr ((key, t), there) ↦
              let shorter = consumes (c ∷ s) key t there in
              let again = h t (omega (arith, e, shorter)) in
              elim (Option-cases (p t)) [
                | inl no_val ↦ rw (pop_entries, ← h (c ∷ s) e, there, ← again, no_val) refl
                | inr ((val, u), second) ↦
                    let shortest = consumes t val u second in
                    rw (pop_entries, ← h (c ∷ s) e, there, ← again, second)
                      (by_key key val u (is_hashable key) (
                        pop_entries-Agree n rounds rounds' (set_entry python key val d) u h
                          (omega (arith, e, shorter, shortest))
                          (omega (arith, f, shorter, shortest))
                          (omega (arith, g, shorter, shortest))))
              ]
        ]
      where
        by_key :
            (key val : Value) (u : Bytes) (hashable : Bool)
            → pop_entries python p rounds (set_entry python key val d) u
              ≡ pop_entries python q rounds' (set_entry python key val d) u
            → (elim hashable as (λ b. Option Entries) [
              | false ↦ none
              | true ↦ pop_entries python p rounds (set_entry python key val d) u
            ])
              ≡ (elim hashable as (λ b. Option Entries) [
                | false ↦ none
                | true ↦ pop_entries python q rounds' (set_entry python key val d) u
              ])
        by_key key val u false h = refl
        by_key key val u true h = h

    parse-Agree :
        (tag : Tag) (payload : Bytes)
        → Agree (length payload) p q
        → parse python p tag payload ≡ parse python q tag payload
    unfolding parse
    parse-Agree list_tag payload h = ap list_of (
        pop_values-Agree (length payload) (length payload) (length payload) payload h (omega arith)
          (omega arith) (omega arith))
    parse-Agree dict_tag payload h = ap dict_of (
        pop_entries-Agree (length payload) (length payload) (length payload) end payload h
          (omega arith) (omega arith) (omega arith))
    parse-Agree bytes_tag payload h = refl
    parse-Agree str_tag payload h = refl
    parse-Agree integer_tag payload h = refl
    parse-Agree float_tag payload h = refl
    parse-Agree boolean_tag payload h = refl
    parse-Agree null_tag payload h = refl
    parse-Agree other_tag payload h = refl

  pop-fuel :
      (fuel fuel' : ℕ) (s : Bytes)
      → length s ≤ fuel
      → length s ≤ fuel'
      → pop python fuel s ≡ pop python fuel' s
  unfolding pop pop_parts parts_of split_at
  pop-fuel zero zero s h e = refl
  pop-fuel zero (suc fuel') [] h e = refl
  pop-fuel zero (suc fuel') (c ∷ s) h e = absurd (omega (arith, h))
  pop-fuel (suc fuel) zero [] h e = refl
  pop-fuel (suc fuel) zero (c ∷ s) h e = absurd (omega (arith, e))
  pop-fuel (suc fuel) (suc fuel') s h e =
      by_parts (parts_of s) (parts_of-Shorter s) (λ t f g. pop-fuel fuel fuel' t f g)
    where
      by_parts :
          (o : Option Parts)
          → Shorter (length s) o
          → ((t : Bytes)
              → length t ≤ fuel
              → length t ≤ fuel'
              → pop python fuel t ≡ pop python fuel' t)
          → pop_parts python (pop python fuel) o ≡ pop_parts python (pop python fuel') o
      by_parts none shorter again = refl
      by_parts (some (payload, (tag, remain))) shorter again = ap (with_remain remain) (
          parse-Agree (pop python fuel) (pop python fuel') (pop-Consumes fuel) (tag_of tag) payload
            (λ t f. again t (omega (arith, f, shorter.0, h)) (omega (arith, f, shorter.0, e))))

  -- With a fuel and a number of rounds of at least the length of the bytes, what is read does not depend
  -- on them. That the readers then come to an end is `pop-Pops`.
  pop-enough :
      (s : Bytes) (fuel rounds : ℕ)
      → length s ≤ fuel
      → length s ≤ rounds
      → (pop python fuel s ≡ pop python (length s) s)
        × ((pop_values python (pop python fuel) rounds s
              ≡ pop_values python (pop python (length s)) (length s) s)
            × (pop_entries python (pop python fuel) rounds end s
                ≡ pop_entries python (pop python (length s)) (length s) end s))
  pop-enough s fuel rounds h e =
      let agree : Agree (length s) (pop python fuel) (pop python (length s)) =
        λ t f. pop-fuel fuel (length s) t (omega (arith, f, h)) f in
      let consumes = pop-Consumes fuel in
      (
        pop-fuel fuel (length s) s h (omega arith),
        (
          pop_values-Agree (pop python fuel) (pop python (length s)) consumes (length s) rounds
              (length s) s agree (omega arith) e (omega arith),
          pop_entries-Agree (pop python fuel) (pop python (length s)) consumes (length s) rounds
              (length s) end s agree (omega arith) e (omega arith),
        ),
      )
