-- ===== src/Midman/System.antt =====
-- The two threads of the reporter of midman/reporter.py as a step relation: the listener handles a
-- message, the database thread makes a round. What a handler does between two rounds of the database
-- thread is one step.
use middle_man.Base.{ℕ, Bool, Option, List, [], arith}
use middle_man.Midman.Session.{Session}
use middle_man.Midman.Store.{Answer, Answers, Store, made, referred}
use middle_man.Midman.Store.Validity.{IsValid}
use middle_man.Midman.Reporter.{Message, handle}
use middle_man.Midman.Reporter.Validity.{handle-IsValid}
use middle_man.Midman.Writer.{write_one}
use middle_man.Midman.Writer.Rows.{write_one-IsValid}

-- `Reporter.__init__`; what stands behind a reference that was never made does not matter
abbrev pub init : (ℕ → Session) → Store
init objs = record { objs = objs; next = 0; sessions = []; db_queue = []; rows = [] }

module _ (b64decode : List ℕ → Option (List ℕ)) (app_data : List ℕ → Option Bool)
    (isqrt : ℕ → ℕ) where
  pub data Step (st : Store) : Store → Type 0 where
    -- any message that is in the pipe or its buffer, also one that is retried
    listens : (a : Answers) (m : Message) → Step st (handle b64decode app_data isqrt a m st).1
    writes : (a b : Answer) → Step st (write_one a b st)

  pub data Reach (objs : ℕ → Session) : Store → Type 0 where
    begins : Reach objs (init objs)
    then_steps : {st st' : Store} → Reach objs st → Step st st' → Reach objs st'

  IsValid-init : (objs : ℕ → Session) → IsValid (init objs)
  unfolding made referred
  IsValid-init objs = record {
    live = tt;
    room = omega arith;
    queued = tt;
    numbered = tt;
    known = λ r id lt e. elim lt [ ];
    once = tt;
    owned = tt;
  }

  -- In every order of steps of the two threads and for all answers of the database the store is valid:
  -- live and queued references are to objects that exist, at most 8000 packets are queued, every
  -- session with a queued packet has its external side, each object has at most one row in the table
  -- of sessions, which is there exactly if the object has an id and bears that id, and each row of a
  -- packet refers to the row of a session.
  pub Reach-IsValid : (objs : ℕ → Session) (st : Store) → Reach objs st → IsValid st
  Reach-IsValid objs _ begins = IsValid-init objs
  Reach-IsValid objs _ (then_steps {st} r (listens a m)) =
      handle-IsValid b64decode app_data isqrt a m st (Reach-IsValid objs st r)
  Reach-IsValid objs _ (then_steps {st} r (writes a b)) =
      write_one-IsValid a b st (Reach-IsValid objs st r)
