-- ===== src/Io/Reader/Enough.antt =====
-- Every value that is loaded takes a byte of the file at least, so a file is read in as many rounds as it
-- has bytes.
use middle_man.Base.{
  ℕ, zero, suc, ◌≤◌, ◌<◌, ◌≡◌, refl, ap, Bool, true, false, Option, none, some, List, [], ◌∷◌, ◌==◌,
  ltb, if◌then◌else◌, arith, length,
}
use middle_man.Http.Text.{Bytes, is_digit, to_int}
use middle_man.Io.Tnetstring.{Value}
use middle_man.Io.Tnetstring.Parts.{Parts, cut, tag_of}
use middle_man.Io.Tnetstring.Parse.{
  Python, Loaded, empty, invalid, loaded, read_length, load_parts, load_digits, load, parse, pop,
}
use middle_man.Io.Tnetstring.Parse.Shorter.{Within, cut-Within}
use middle_man.Io.Reader.{Ending, finished, failed, stream_loop}

-- what is left is shorter
abbrev Leaves : ℕ → Loaded → Type 0
Leaves n empty = Unit
Leaves n invalid = Unit
Leaves n (loaded value rest) = length rest < n

abbrev Behind : ℕ → Option (Bytes × Bytes) → Type 0
Behind n none = Unit
Behind n (some (digits, rest)) = length rest < n

read_length-Behind : (count : ℕ) (s : Bytes) → Behind (length s) (read_length count s)
unfolding read_length
read_length-Behind count [] = tt
read_length-Behind count (c ∷ s) =
    by_tests (is_digit c) (ltb count 12) (c == b':') (read_length (suc count) s)
      (read_length-Behind (suc count) s)
  where
    by_tests :
        (digit few colon : Bool) (more : Option (Bytes × Bytes))
        → Behind (length s) more
        → Behind (suc (length s)) (
            if digit
            then if few
              then elim more [ none ↦ none | some found ↦ some (c ∷ found.0, found.1) ]
              else none
            else if colon
            then some ([], s)
            else none)
    by_tests true true colon none h = tt
    by_tests true true colon (some found) h = omega (arith, h)
    by_tests true false colon more h = tt
    by_tests false few true more h = omega arith
    by_tests false few false more h = tt

module _ (python : Python) where
  load_parts-Leaves :
      (n : ℕ) (parts : Option Parts) → Within n parts → Leaves (suc n) (load_parts python parts)
  load_parts-Leaves n none h = tt
  load_parts-Leaves n (some (payload, (tag, remain))) h =
      by_value (parse python (pop python (length payload)) (tag_of tag) payload)
    where
      by_value :
          (o : Option Value)
          → Leaves
              (suc n)
              (elim o as (λ o. Loaded) [ none ↦ invalid | some value ↦ loaded value remain ])
      by_value none = tt
      by_value (some value) = omega (arith, h.1)

  Leaves-le : (m n : ℕ) (o : Loaded) → m ≤ n → Leaves m o → Leaves n o
  Leaves-le m n empty e h = tt
  Leaves-le m n invalid e h = tt
  Leaves-le m n (loaded value rest) e h = omega (arith, e, h)

  load-Leaves : (s : Bytes) → Leaves (length s) (load python s)
  unfolding load
  load-Leaves [] = tt
  load-Leaves (c ∷ s) = by_digits (read_length 0 (c ∷ s)) (read_length-Behind 0 (c ∷ s))
    where
      by_digits :
          (o : Option (Bytes × Bytes))
          → Behind (suc (length s)) o
          → Leaves (suc (length s)) (load_digits python o)
      by_digits none h = tt
      by_digits (some ([], rest)) h = tt
      by_digits (some (d ∷ digits, rest)) h =
          Leaves-le (suc (length rest)) (suc (length s))
            (load_parts python (cut false (to_int 0 (d ∷ digits)) rest)) (omega (arith, h))
            (load_parts-Leaves (length rest) (cut false (to_int 0 (d ∷ digits)) rest)
              (cut-Within false (to_int 0 (d ∷ digits)) rest))

module _ {F : Type 0} (python : Python) (from_state : Value → Option F)
    (read_har : Bytes → List F × Ending) where
  -- With more rounds than a file has bytes, the loop of `stream` gives the same whatever their number, so
  -- that it ends as the file makes it end.
  stream_loop-enough :
      (rounds rounds' : ℕ) (fo : Bytes)
      → length fo < rounds
      → length fo < rounds'
      → stream_loop python from_state read_har rounds fo
        ≡ stream_loop python from_state read_har rounds' fo
  unfolding stream_loop
  stream_loop-enough zero rounds' fo h e = absurd (omega (arith, h))
  stream_loop-enough (suc rounds) zero fo h e = absurd (omega (arith, e))
  stream_loop-enough (suc rounds) (suc rounds') fo h e =
      by_load (load python fo) (load-Leaves python fo)
        (λ rest f g. stream_loop-enough rounds rounds' rest f g)
    where
      after : ℕ → Loaded → List F × Ending
      after n empty = ([], finished)
      after n invalid = ([], failed)
      after n (loaded value rest) = elim (from_state value) [
        | none ↦ ([], failed)
        | some flow ↦ (
          flow ∷ (stream_loop python from_state read_har n rest).0,
          (stream_loop python from_state read_har n rest).1,
        )
      ]

      by_load :
          (o : Loaded)
          → Leaves (length fo) o
          → ((rest : Bytes)
              → length rest < rounds
              → length rest < rounds'
              → stream_loop python from_state read_har rounds rest
                ≡ stream_loop python from_state read_har rounds' rest)
          → after rounds o ≡ after rounds' o
      by_load empty l again = refl
      by_load invalid l again = refl
      by_load (loaded value rest) l again =
          ap {A = List F × Ending}
            (λ found. elim (from_state value) as (λ o. List F × Ending) [
              | none ↦ ([], failed)
              | some flow ↦ (flow ∷ found.0, found.1)
            ])
            (again rest (omega (arith, l, h)) (omega (arith, l, e)))
