-- ===== src/Midman/Listener.antt =====
-- `PipeReader.read_data` of midman/pipe.py with `__listen_worker` of midman/reporter.py: one line of the
-- pipe and the retries that it leads to. A line enters an empty buffer, and the next line is read when
-- the buffer is empty again.
pub mod Retries
pub mod Duplicates
use middle_man.Base.{
  ℕ, zero, suc, ◌+◌, Bool, true, false, ◌&&◌, Option, List, [], ◌∷◌, ◌++◌, ltb, if◌then◌else◌,
}
use middle_man.Midman.Fault.{Outcome, done, raised}
use middle_man.Midman.Store.{Answers, Store}
use middle_man.Midman.Reporter.{Message, ciphertext, unknown, handle}

-- an entry of the buffer; `retry_times` is the field that a retry adds to the data
pub record Entry : Type 0 where
  pub message : Message
  pub answers : Answers
  pub retry_times : ℕ

abbrev pub max_retries : ℕ
max_retries = 20

abbrev pub is_ciphertext : Message → Bool
is_ciphertext (ciphertext peer sock direction rec) = true
is_ciphertext _ = false

abbrev pub is_unknown : Message → Bool
is_unknown unknown = true
is_unknown _ = false

abbrev pub failed : Outcome → Bool
failed done = false
failed (raised f) = true

-- The `except` branch: a ciphertext that failed goes to the end of the buffer, at most 20 times.
pub retry : Entry → Outcome → List Entry → List Entry
retry entry o buffer =
    if failed o && is_ciphertext entry.message && ltb entry.retry_times max_retries
    then buffer ++ record entry { retry_times = entry.retry_times + 1 } ∷ []
    else buffer

-- The state of the thread: listening with a buffer, or ended by the exception for an unknown name,
-- which is raised outside of the `try`.
pub data Listening : Type 0 where
  listening : List Entry → Store → Listening
  stopped : Store → Listening

module _ (b64decode : List ℕ → Option (List ℕ)) (app_data : List ℕ → Option Bool)
    (isqrt : ℕ → ℕ) where
  -- `while len(self.buffer) > 0`, with fuel for the entries taken from it
  pub drain : ℕ → List Entry → Store → Listening
  drain zero buffer st = listening buffer st
  drain (suc fuel) [] st = listening [] st
  drain (suc fuel) (entry ∷ buffer) st =
      let result = handle b64decode app_data isqrt entry.answers entry.message st in
      let rest = drain fuel (retry entry result.0 buffer) result.1 in
      if is_unknown entry.message then stopped st else rest

  -- a line of the pipe: it enters the empty buffer with no retries yet
  pub read_line : ℕ → Message → Answers → Store → Listening
  unfolding drain
  read_line fuel message answers st =
      drain fuel (record { message = message; answers = answers; retry_times = 0 } ∷ []) st
