-- ===== src/Proxy/Layer/Reference.antt =====
-- Code that blocks: a generator that is run with the replies at hand, and events one after another.
use middle_man.Base.{
  ◌≡◌, refl, ◌∙◌, none, some, List, [], ◌∷◌, ◌++◌, if◌then◌else◌, ap, sym, append_assoc, inl, inr,
  Bool-cases,
}
use middle_man.Proxy.Layer.{
  Command, Event, CommandGenerator, stop, yields, Paused, idle, paused, Layer, is_blocking,
  wait_for, after, process, drain,
}

-- A generator that is run with the replies at hand: a blocking command takes the next reply, and the
-- run pauses where there is none. It gives the commands, where it ends, and the replies left.
abbrev pub block :
    {B R S : Type 0} → CommandGenerator B R S → List R → List (Command B) × (Paused B R S × List R)
block (stop s) replies = ([], (idle s, replies))
block (yields command resume) [] =
    let rest = block (resume none) [] in
    if is_blocking command
    then (wait_for command ∷ [], (paused (wait_for command) resume, []))
    else after (command ∷ []) rest
block (yields command resume) (reply ∷ replies) =
    let next = block (resume (some reply)) replies in
    let rest = block (resume none) (reply ∷ replies) in
    if is_blocking command then after (wait_for command ∷ []) next else after (command ∷ []) rest

-- a generator that has paused goes on with the next reply
abbrev pub resume_block :
    {B R S : Type 0} → Paused B R S → List R → List (Command B) × (Paused B R S × List R)
resume_block (idle s) replies = ([], (idle s, replies))
resume_block (paused command resume) [] = ([], (paused command resume, []))
resume_block (paused command resume) (reply ∷ replies) = block (resume (some reply)) replies

pub after-after :
    {A B : Type 0} (cs ds : List (Command B)) (result : List (Command B) × A)
    → after (cs ++ ds) result ≡ after cs (after ds result)
after-after cs ds result = ap (λ l. (l, result.1)) (append_assoc cs ds (result.0))

pub block-process :
    {B R S : Type 0} (g : CommandGenerator B R S) (replies : List R)
    → block g replies ≡ after ((process g).0) (resume_block ((process g).1) replies)
unfolding process
block-process (stop s) replies = refl
block-process (yields command resume) [] = elim (Bool-cases (is_blocking command)) [
  | inl e ↦ rw e refl
  | inr e ↦ rw (e, block-process (resume none) []) refl
]
block-process (yields command resume) (reply ∷ replies) = elim (Bool-cases (is_blocking command)) [
  | inl e ↦ rw e refl
  | inr e ↦ rw (e, block-process (resume none) (reply ∷ replies)) refl
]

abbrev pub at : {B D R S : Type 0} → Paused B R S → List (Event D R) → Layer B D R S
at state queue = record { state = state; queue = queue }

module _ {B D R S : Type 0} (_handle_event : Event D R → S → CommandGenerator B R S) where
  -- the events one after another, each run to its end before the next
  abbrev pub serve : Paused B R S → List (Event D R) → List R → List (Command B) × Layer B D R S
  serve (paused command resume) events replies = ([], at (paused command resume) events)
  serve (idle s) [] replies = ([], at (idle s) [])
  serve (idle s) (event ∷ events) replies =
      let run = block (_handle_event event s) replies in
      after (run.0) (serve (run.1.0) events (run.1.1))

  -- the events behind a generator that is run
  abbrev pub finish :
      List (Command B) × (Paused B R S × List R)
      → List (Event D R)
      → List (Command B) × Layer B D R S
  finish run events = after (run.0) (serve (run.1.0) events (run.1.1))

  -- what is paused goes on first
  abbrev pub resume_all :
      Paused B R S → List (Event D R) → List R → List (Command B) × Layer B D R S
  resume_all state events replies = finish (resume_block state replies) events

  pub finish-block :
      (g : CommandGenerator B R S) (events : List (Event D R)) (replies : List R)
      → finish (block g replies) events
        ≡ after ((process g).0) (resume_all ((process g).1) events replies)
  finish-block g events replies =
      let paused_at = resume_block ((process g).1) replies in
      rw (block-process g replies)
        (after-after ((process g).0) (paused_at.0) (serve (paused_at.1.0) events (paused_at.1.1)))

  pub resume_all-drain :
      (state : Paused B R S) (queue events : List (Event D R)) (replies : List R)
      → resume_all state (queue ++ events) replies
        ≡ after ((drain _handle_event state queue).0) (
            resume_all
              ((drain _handle_event state queue).1.state)
              ((drain _handle_event state queue).1.queue ++ events)
              replies)
  unfolding drain
  resume_all-drain (paused command resume) queue events replies = refl
  resume_all-drain (idle s) [] events replies = refl
  resume_all-drain (idle s) (event ∷ queue) events replies =
      let run = process (_handle_event event s) in
      let drained = drain _handle_event (run.1) queue in
      finish-block (_handle_event event s) (queue ++ events) replies
      ∙ ap (after (run.0)) (resume_all-drain (run.1) queue events replies)
      ∙ sym (
          after-after (run.0) (drained.0)
            (resume_all (drained.1.state) (drained.1.queue ++ events) replies))
