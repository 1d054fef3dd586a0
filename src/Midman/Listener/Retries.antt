-- ===== src/Midman/Listener/Retries.antt =====
-- The buffer of the pipe empties: a line is handled at most 21 times.
use middle_man.Base.{
  ℕ, zero, suc, ◌+◌, ◌-◌, ◌≤◌, ◌<◌, ◌≡◌, refl, inl, inr, Bool, Option, List, [], ◌∷◌, ◌++◌, arith,
  Bool-cases,
}
use middle_man.Midman.Fault.{Outcome}
use middle_man.Midman.Store.{Answers, Store}
use middle_man.Midman.Store.Validity.{IsValid}
use middle_man.Midman.Reporter.{Message, handle}
use middle_man.Midman.Reporter.Validity.{handle-IsValid}
use middle_man.Midman.Listener.{
  Entry, is_unknown, retry, Listening, listening, stopped, drain, read_line,
}

-- how often the entries of a buffer can still be handled
abbrev pub credit : List Entry → ℕ
credit [] = 0
credit (entry ∷ buffer) = suc (20 - entry.retry_times) + credit buffer

credit-append : (xs ys : List Entry) → credit (xs ++ ys) ≡ credit xs + credit ys
credit-append [] ys = omega arith
credit-append (x ∷ xs) ys = omega (arith, credit-append xs ys)

credit-retry :
    (entry : Entry) (o : Outcome) (buffer : List Entry)
    → credit (retry entry o buffer) < credit (entry ∷ buffer)
unfolding retry
credit-retry entry o buffer =
    ground (arith, credit-append buffer (record entry { retry_times = entry.retry_times + 1 } ∷ []))

-- the thread is idle again with a valid store, or has ended with one
abbrev pub Settled : Listening → Type 0
Settled (listening buffer st) = (buffer ≡ []) × IsValid st
Settled (stopped st) = IsValid st

module _ (b64decode : List ℕ → Option (List ℕ)) (app_data : List ℕ → Option Bool)
    (isqrt : ℕ → ℕ) where
  -- With fuel for all the retries that its entries have left the buffer empties, and the store stays
  -- valid, or the thread ends.
  pub drain-Settled :
      (fuel : ℕ) (buffer : List Entry) (st : Store)
      → credit buffer ≤ fuel
      → IsValid st
      → Settled (drain b64decode app_data isqrt fuel buffer st)
  unfolding drain
  drain-Settled zero [] st h v = (refl, v)
  drain-Settled zero (entry ∷ buffer) st h v = absurd (omega arith)
  drain-Settled (suc fuel) [] st h v = (refl, v)
  drain-Settled (suc fuel) (entry ∷ buffer) st h v =
      let result = handle b64decode app_data isqrt entry.answers entry.message st in
      let later =
        drain-Settled fuel (retry entry result.0 buffer) result.1
          (omega (arith, credit-retry entry result.0 buffer))
          (handle-IsValid b64decode app_data isqrt entry.answers entry.message st v) in
      elim (Bool-cases (is_unknown entry.message)) [ inl e ↦ rw e v | inr e ↦ rw e later ]

  -- A line of the pipe is handled at most 21 times: with fuel 21 the buffer is empty again, or the
  -- line has a name with no handler and the thread ends; the store stays valid.
  pub read_line-Settled :
      (message : Message) (answers : Answers) (st : Store)
      → IsValid st
      → Settled (read_line b64decode app_data isqrt 21 message answers st)
  unfolding read_line
  read_line-Settled message answers st v =
      drain-Settled 21 (record { message = message; answers = answers; retry_times = 0 } ∷ []) st
        (omega arith) v
