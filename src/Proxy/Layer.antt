-- ===== src/Proxy/Layer.antt =====
-- `Layer` of mitmproxy/proxy/layer.py: a layer handles events and yields commands, and pauses on a
-- blocking command until the event that completes it. `D` is what other events carry, `B` what a
-- command asks for, `R` a reply, `S` the attributes of a subclass.
pub mod Reference
pub mod Order
use middle_man.Base.{
  ℕ, Bool, true, false, Option, none, some, List, [], ◌∷◌, ◌++◌, ◌==◌, if◌then◌else◌,
}

-- the attribute `blocking`: True, False, or the layer that waits
pub data Blocking : Type 0 where
  blocks goes_on waited_for : Blocking

-- a command object; `id` is its identity, which `is` compares
pub record Command (B : Type 0) : Type 0 where
  pub id : ℕ
  pub blocking : Blocking
  pub asks : B

-- `CommandCompleted` with the identity of its command, or any other event
pub data Event (D R : Type 0) : Type 0 where
  completed : ℕ → R → Event D R
  other : D → Event D R

-- The generator that `_handle_event` returns: it stops, or it yields a command and goes on with
-- what is sent to it.
pub data CommandGenerator (B R S : Type 0) : Type 0 where
  stop : S → CommandGenerator B R S
  yields : Command B → (Option R → CommandGenerator B R S) → CommandGenerator B R S

-- `_paused`: None, while the attributes are at rest, or the command and the generator
pub data Paused (B R S : Type 0) : Type 0 where
  idle : S → Paused B R S
  paused : Command B → (Option R → CommandGenerator B R S) → Paused B R S

-- the attributes `_paused` and `_paused_event_queue`
pub record Layer (B D R S : Type 0) : Type 0 where
  pub state : Paused B R S
  pub queue : List (Event D R)

module _ {B : Type 0} where
  unfoldable pub is_blocking : Command B → Bool
  is_blocking command = elim (command.blocking) [
    | blocks ↦ true
    | goes_on ↦ false
    | waited_for ↦ false
  ]

  -- `command.blocking = self`
  unfoldable pub wait_for : Command B → Command B
  wait_for command = record { id = command.id; blocking = waited_for; asks = command.asks }

  -- commands in front of those of a result
  abbrev pub after : {A : Type 0} → List (Command B) → List (Command B) × A → List (Command B) × A
  after commands result = (commands ++ result.0, result.1)

-- `__process`: yield from the generator until it stops or pauses
unfoldable pub process : {B R S : Type 0} → CommandGenerator B R S → List (Command B) × Paused B R S
unfolding is_blocking wait_for
process (stop s) = ([], idle s)
process (yields command resume) =
    let rest = process (resume none) in
    if is_blocking command
    then (wait_for command ∷ [], paused (wait_for command) resume)
    else after (command ∷ []) rest

module _ {B D R S : Type 0} (_handle_event : Event D R → S → CommandGenerator B R S) where
  -- the loop of `__continue` over the queue
  unfoldable pub drain : Paused B R S → List (Event D R) → List (Command B) × Layer B D R S
  unfolding process
  drain (paused command resume) queue =
      ([], record { state = paused command resume; queue = queue })
  drain (idle s) [] = ([], record { state = idle s; queue = [] })
  drain (idle s) (event ∷ queue) =
      let run = process (_handle_event event s) in after (run.0) (drain (run.1) queue)

  -- `__continue`
  unfoldable pub continue :
      (Option R → CommandGenerator B R S) → R → List (Event D R) → List (Command B) × Layer B D R S
  unfolding process drain
  continue resume reply queue =
      let run = process (resume (some reply)) in after (run.0) (drain (run.1) queue)

  -- `handle_event` of a layer that is paused
  unfoldable pub handle_paused :
      Command B
      → (Option R → CommandGenerator B R S)
      → List (Event D R)
      → Event D R
      → List (Command B) × Layer B D R S
  unfolding continue
  handle_paused command resume queue (other d) =
      ([], record { state = paused command resume; queue = queue ++ other d ∷ [] })
  handle_paused command resume queue (completed id reply) =
      if id == command.id
      then continue resume reply queue
      else ([], record { state = paused command resume; queue = queue ++ completed id reply ∷ [] })

  unfoldable pub handle_event : Event D R → Layer B D R S → List (Command B) × Layer B D R S
  unfolding handle_paused process
  handle_event event layer = elim (layer.state) [
    | idle s ↦
        let run = process (_handle_event event s) in
        (run.0, record { state = run.1; queue = layer.queue })
    | paused command resume ↦ handle_paused command resume (layer.queue) event
  ]

  -- the events that a layer is called with, one after another
  unfoldable pub handle_events : List (Event D R) → Layer B D R S → List (Command B) × Layer B D R S
  unfolding handle_event
  handle_events [] layer = ([], layer)
  handle_events (event ∷ events) layer =
      let run = handle_event event layer in after (run.0) (handle_events events (run.1))
