-- ===== src/Io/Tnetstring/Parse/Shorter.antt =====
-- The parts that a netstring is taken apart into are shorter than its bytes.
use middle_man.Base.{
  ℕ, zero, suc, ◌+◌, ◌-◌, ◌≤◌, ◌<◌, Bool, true, false, Option, none, some, [], ◌∷◌, ◌++◌, leb, ◌==◌,
  inl, inr, arith, length, Bool-cases,
}
use middle_man.Http.Text.{Bytes}
use middle_man.Io.Tnetstring.Parts.{read_int, take, drop, split_at, first_of, cut, Parts, parts_of}

-- parts of at most so many bytes
abbrev pub Within : ℕ → Option Parts → Type 0
Within n none = Unit
Within n (some (payload, (tag, remain))) = (length payload ≤ n) × (length remain ≤ n)

abbrev SplitWithin : ℕ → Option ((Bool × ℕ) × Bytes) → Type 0
SplitWithin n none = Unit
SplitWithin n (some (size, rest)) = suc (length rest) ≤ n

length-take : (n : ℕ) (s : Bytes) → length (take n s) ≤ length s
unfolding take
length-take zero s = omega arith
length-take (suc n) [] = omega arith
length-take (suc n) (c ∷ s) = omega (arith, length-take n s)

length-drop : (n : ℕ) (s : Bytes) → length (drop n s) ≤ length s
unfolding drop
length-drop zero s = omega arith
length-drop (suc n) [] = omega arith
length-drop (suc n) (c ∷ s) = omega (arith, length-drop n s)

first_of-Within :
    (n : ℕ) (payload s : Bytes) → length payload ≤ n → length s ≤ n → Within n (first_of payload s)
first_of-Within n payload [] h e = tt
first_of-Within n payload (tag ∷ remain) h e = (h, omega (arith, e))

pub cut-Within : (negative : Bool) (n : ℕ) (s : Bytes) → Within (length s) (cut negative n s)
unfolding cut
cut-Within false n s =
    first_of-Within (length s) (take n s) (drop n s) (length-take n s) (length-drop n s)
cut-Within true zero s = first_of-Within (length s) [] s (omega arith) (omega arith)
cut-Within true (suc zero) [] = tt
cut-Within true (suc zero) (c ∷ t) = by_last (drop (length t) (c ∷ t))
  where
    by_last :
        (last : Bytes)
        → Within
            (suc (length t))
            (elim last [ [] ↦ none | tag ∷ rest ↦ some (take (length t) (c ∷ t), (tag, c ∷ t)) ])
    by_last [] = tt
    by_last (tag ∷ rest) = (length-take (length t) (c ∷ t), omega arith)
cut-Within true (suc (suc n)) s = elim (Bool-cases (leb (n + 2) (length s))) [
  | inl e ↦ rw e (
      first_of-Within (length s) (take (length s - (n + 2)) s) (drop (length s - (n + 2)) s)
        (length-take (length s - (n + 2)) s) (length-drop (length s - (n + 2)) s))
  | inr e ↦ rw e tt
]

split_at-SplitWithin : (sep : ℕ) (front s : Bytes) → SplitWithin (length s) (split_at sep front s)
unfolding split_at
split_at-SplitWithin sep front [] = tt
split_at-SplitWithin sep front (c ∷ s) = elim (Bool-cases (c == sep)) [
  | inl e ↦ rw e (by_size (read_int front))
  | inr e ↦
      rw e
        (longer (split_at sep (front ++ c ∷ []) s) (split_at-SplitWithin sep (front ++ c ∷ []) s))
]
  where
    by_size :
        (size : Option (Bool × ℕ))
        → SplitWithin (suc (length s)) (elim size [ none ↦ none | some size ↦ some (size, s) ])
    by_size none = tt
    by_size (some size) = omega arith

    longer :
        (o : Option ((Bool × ℕ) × Bytes))
        → SplitWithin (length s) o
        → SplitWithin (suc (length s)) o
    longer none h = tt
    longer (some found) h = omega (arith, h)

-- the parts are shorter than the bytes
abbrev pub Shorter : ℕ → Option Parts → Type 0
Shorter n none = Unit
Shorter n (some (payload, (tag, remain))) = (length payload < n) × (length remain < n)

pub parts_of-Shorter : (s : Bytes) → Shorter (length s) (parts_of s)
unfolding parts_of
parts_of-Shorter s = by_split (split_at b':' [] s) (split_at-SplitWithin b':' [] s)
  where
    by_parts : (n : ℕ) (o : Option Parts) → Within n o → suc n ≤ length s → Shorter (length s) o
    by_parts n none h e = tt
    by_parts n (some parts) h e = (omega (arith, h.0, e), omega (arith, h.1, e))

    by_split :
        (o : Option ((Bool × ℕ) × Bytes))
        → SplitWithin (length s) o
        → Shorter
            (length s)
            (elim o [ none ↦ none | some (size, rest) ↦ cut (size.0) (size.1) rest ])
    by_split none h = tt
    by_split (some found) h =
        by_parts (length found.1) (cut (found.0.0) (found.0.1) found.1)
          (cut-Within (found.0.0) (found.0.1) found.1) h
