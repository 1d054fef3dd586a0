-- ===== src/Midman/Session/Search.antt =====
-- What the three searches of `check_packet` find: the two timestamps around an item, and the record.
use mathlib.Core.Path.{subst}
use middle_man.Base.{
  ℕ, ◌≤◌, ◌<◌, ◌≡◌, refl, sym, ◌⊎◌, inl, inr, true, false, Option, none, some, List, [], ◌∷◌, ◌++◌,
  append_assoc, append-nil, arith, Bool-cases, ltb, All, All-append, In, All-In,
}
use middle_man.Midman.Connection.{CipherRecord}
use middle_man.Midman.Session.{last_before, first_after, within, take_record}

-- each timestamp is at most all later ones
abbrev pub IsSorted : List ℕ → Type 0
IsSorted [] = Unit
IsSorted (t ∷ ts) = All (λ u. t ≤ u) ts × IsSorted ts

pub last_before-some :
    (p : ℕ) (ts : List ℕ) (acc : Option ℕ) (lo : ℕ)
    → last_before p ts acc ≡ some lo
    → (acc ≡ some lo) ⊎ (In lo ts × (lo < p))
unfolding last_before
last_before-some p [] acc lo h = inl h
last_before-some p (t ∷ ts) acc lo h = elim (Bool-cases (ltb t p)) [
  | inl e ↦ elim (last_before-some p ts (some t) lo (rw e at h)) [
    | inl k ↦ inr (inl (ground arith), ground arith)
    | inr k ↦ inr (inr k.0, k.1)
  ]
  | inr e ↦ inl (rw e at h)
]

last_before-le :
    (p : ℕ) (ts : List ℕ) (x lo : ℕ)
    → All (λ u. x ≤ u) ts
    → last_before p ts (some x) ≡ some lo
    → x ≤ lo
last_before-le p ts x lo bound h = elim (last_before-some p ts (some x) lo h) [
  | inl e ↦ ground arith
  | inr k ↦ All-In (λ u. x ≤ u) lo ts bound k.0
]

-- in a sorted list nothing below `p` is above what is found
pub last_before-max :
    (p : ℕ) (ts : List ℕ) (acc : Option ℕ) (lo t : ℕ)
    → IsSorted ts
    → last_before p ts acc ≡ some lo
    → In t ts
    → t < p
    → t ≤ lo
unfolding last_before
last_before-max p [] acc lo t s h i below = absurd i
last_before-max p (x ∷ ts) acc lo t s h (inl k) below =
    let low : ltb x p ≡ true = ground arith in rw k (last_before-le p ts x lo s.0 (rw low at h))
last_before-max p (x ∷ ts) acc lo t s h (inr k) below = elim (Bool-cases (ltb x p)) [
  | inl e ↦ last_before-max p ts (some x) lo t s.1 (rw e at h) k below
  | inr e ↦ ground (arith, All-In (λ u. x ≤ u) t ts s.0 k)
]

pub first_after-some :
    (p : ℕ) (ts : List ℕ) (hi : ℕ) → first_after p ts ≡ some hi → In hi ts × (p < hi)
unfolding first_after
first_after-some p [] hi h = cc
first_after-some p (t ∷ ts) hi h = elim (Bool-cases (ltb p t)) [
  | inl e ↦ (inl (ground arith), ground arith)
  | inr e ↦ let (i, k) = first_after-some p ts hi (rw e at h) in (inr i, k)
]

-- in a sorted list nothing above `p` is below what is found
pub first_after-min :
    (p : ℕ) (ts : List ℕ) (hi t : ℕ)
    → IsSorted ts
    → first_after p ts ≡ some hi
    → In t ts
    → p < t
    → hi ≤ t
unfolding first_after
first_after-min p [] hi t s h i above = absurd i
first_after-min p (x ∷ ts) hi t s h (inl k) above = ground arith
first_after-min p (x ∷ ts) hi t s h (inr k) above = elim (Bool-cases (ltb p x)) [
  | inl e ↦ ground (arith, All-In (λ u. x ≤ u) t ts s.0 k)
  | inr e ↦ first_after-min p ts hi t s.1 (rw e at h) k above
]

-- What is kept is a beginning of the records. With a match it ends right before the matching
-- record, and no record in it lies in the window; without one it is all of them.
abbrev pub Taken :
    Option ℕ → Option ℕ → List CipherRecord → Option (List ℕ) → List CipherRecord → Type 0
Taken a b records none kept = (kept ≡ records) × All (λ r. within a b r ≡ false) records
Taken a b records (some blob) kept =
    (r : CipherRecord) × (rest : List CipherRecord) × (records ≡ kept ++ r ∷ rest)
    × (within a b r ≡ true)
    × (r.payload ≡ blob)
    × All (λ r. within a b r ≡ false) kept

-- with `skipped` the records already passed over
TakenFrom : Option ℕ → Option ℕ → List CipherRecord → List CipherRecord → Type 0
TakenFrom a b skipped records =
    All (λ r. within a b r ≡ false) skipped
    → Taken a b (skipped ++ records) (take_record a b records skipped).0
        (take_record a b records skipped).1

take_record-TakenFrom :
    (a b : Option ℕ) (skipped records : List CipherRecord) → TakenFrom a b skipped records
unfolding TakenFrom take_record
take_record-TakenFrom a b skipped [] none_in = (sym (append-nil skipped), rw append-nil none_in)
take_record-TakenFrom a b skipped (r ∷ records) none_in = elim (Bool-cases (within a b r)) [
  | inl e ↦ rw e (r, records, refl, e, refl, none_in)
  | inr e ↦ rw e (
      subst
        (λ l.
          Taken a b l (take_record a b records (skipped ++ r ∷ [])).0
            (take_record a b records (skipped ++ r ∷ [])).1)
        (append_assoc skipped (r ∷ []) records)
        (take_record-TakenFrom a b (skipped ++ r ∷ []) records
          (All-append (λ r. within a b r ≡ false) skipped (r ∷ []) none_in (e, tt))))
]

-- The search of the records keeps a beginning of them: everything if no record lies between the
-- two timestamps, and otherwise what stands before the first that does. That record gives the
-- payload, and what stands behind it is not kept.
pub take_record-Taken :
    (a b : Option ℕ) (records : List CipherRecord)
    → Taken a b records (take_record a b records []).0 (take_record a b records []).1
unfolding TakenFrom
take_record-Taken a b records = take_record-TakenFrom a b [] records tt
