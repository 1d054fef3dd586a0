-- ===== src/Proxy/Layer/Order.antt =====
-- The commands that a layer yields are those of code that blocks.
use mathlib.Core.Path.{subst}
use middle_man.Base.{
  ℕ, ◌≡◌, refl, ◌∙◌, true, false, Option, none, some, List, [], ◌∷◌, ◌++◌, ◌==◌, if◌then◌else◌, ap,
  sym, append_assoc, append-nil, inl, inr, Bool-cases,
}
use middle_man.Proxy.Layer.{
  Command, Event, completed, other, CommandGenerator, Paused, idle, paused, Layer, after, process,
  drain, continue, handle_paused, handle_event, handle_events,
}
use middle_man.Proxy.Layer.Reference.{
  at, serve, resume_all, after-after, finish-block, resume_all-drain,
}

module _ {B D R S : Type 0} (_handle_event : Event D R → S → CommandGenerator B R S) where
  -- the reply that an event brings, if the layer waits for it
  abbrev pub reply_of : Paused B R S → Event D R → Option R
  reply_of (idle s) event = none
  reply_of (paused command resume) (other d) = none
  reply_of (paused command resume) (completed id reply) =
      if id == command.id then some reply else none

  -- an event in front of those to come: its reply, or the event
  abbrev pub put : Event D R → Option R → List (Event D R) × List R → List (Event D R) × List R
  put event none rest = (event ∷ rest.0, rest.1)
  put event (some reply) rest = (rest.0, reply ∷ rest.1)

  -- the replies among the events that reach a layer, and the other events, in their order
  abbrev pub parts : List (Event D R) → Layer B D R S → List (Event D R) × List R
  parts [] layer = ([], [])
  parts (event ∷ events) layer =
      put event (reply_of (layer.state) event)
        (parts events ((handle_event _handle_event event layer).1))

  -- events wait only while the layer is paused
  abbrev pub IsWaiting : Layer B D R S → Type 0
  IsWaiting layer = elim (layer.state) [ idle s ↦ layer.queue ≡ [] | paused command resume ↦ Unit ]

  drain-IsWaiting :
      (state : Paused B R S) (queue : List (Event D R))
      → IsWaiting ((drain _handle_event state queue).1)
  unfolding drain
  drain-IsWaiting (paused command resume) queue = tt
  drain-IsWaiting (idle s) [] = refl
  drain-IsWaiting (idle s) (event ∷ queue) =
      drain-IsWaiting ((process (_handle_event event s)).1) queue

  -- what is to be shown of a layer and the events that are still to come
  abbrev Agrees : List (Event D R) → Layer B D R S → Type 0
  Agrees events layer =
      handle_events _handle_event events layer
      ≡ resume_all _handle_event (layer.state) (layer.queue ++ (parts events layer).0)
          ((parts events layer).1)

  -- an event whose handling and reply are known
  step-Agrees :
      (event : Event D R) (layer : Layer B D R S) (events : List (Event D R))
      (next : List (Command B) × Layer B D R S) (reply : Option R)
      → handle_event _handle_event event layer ≡ next
      → reply_of (layer.state) event ≡ reply
      → after (next.0) (handle_events _handle_event events (next.1))
        ≡ resume_all _handle_event
            (layer.state)
            (layer.queue ++ (put event reply (parts events (next.1))).0)
            ((put event reply (parts events (next.1))).1)
      → Agrees (event ∷ events) layer
  unfolding handle_events
  step-Agrees event layer events next reply e f h =
      subst
        (λ n.
          after (n.0) (handle_events _handle_event events (n.1))
          ≡ whole (reply_of (layer.state) event) (n.1))
        (sym e)
        (subst
          (λ r. after (next.0) (handle_events _handle_event events (next.1)) ≡ whole r (next.1))
          (sym f) h)
    where
      whole : Option R → Layer B D R S → List (Command B) × Layer B D R S
      whole r layer' =
          let all = put event r (parts events layer') in
          resume_all _handle_event (layer.state) (layer.queue ++ all.0) (all.1)

  process-IsWaiting : (g : CommandGenerator B R S) → IsWaiting (at ((process g).1) [])
  process-IsWaiting g = state-IsWaiting ((process g).1)
    where
      state-IsWaiting : (state : Paused B R S) → IsWaiting (at state [])
      state-IsWaiting (idle s) = refl
      state-IsWaiting (paused command resume) = tt

  -- an event that an idle layer handles, or that a paused one puts in the queue
  idle-Agrees :
      (event : Event D R) (s : S) (queue events : List (Event D R))
      → queue ≡ []
      → Agrees events (at ((process (_handle_event event s)).1) [])
      → Agrees (event ∷ events) (at (idle s) queue)
  unfolding handle_events handle_event
  idle-Agrees event s queue events w h =
      let next = parts events (at ((process (_handle_event event s)).1) []) in
      rw w (
        ap (after ((process (_handle_event event s)).0)) h
        ∙ sym (finish-block _handle_event (_handle_event event s) (next.0) (next.1)))

  requeue :
      (state : Paused B R S) (event : Event D R) (queue events : List (Event D R))
      → Agrees events (at state (queue ++ event ∷ []))
      → handle_events _handle_event events (at state (queue ++ event ∷ []))
        ≡ resume_all _handle_event state
            (queue ++ event ∷ (parts events (at state (queue ++ event ∷ []))).0)
            ((parts events (at state (queue ++ event ∷ []))).1)
  requeue state event queue events h =
      let rest = parts events (at state (queue ++ event ∷ [])) in
      h
      ∙ ap (λ l. resume_all _handle_event state l (rest.1))
          (append_assoc queue (event ∷ []) (rest.0))

  other-Agrees :
      (d : D) (command : Command B) (resume : Option R → CommandGenerator B R S)
      (queue events : List (Event D R))
      → Agrees events (at (paused command resume) (queue ++ other d ∷ []))
      → Agrees (other d ∷ events) (at (paused command resume) queue)
  unfolding handle_events handle_event handle_paused
  other-Agrees d command resume queue events h =
      requeue (paused command resume) (other d) queue events h

  unmatched-Agrees :
      (id : ℕ) (reply : R) (command : Command B) (resume : Option R → CommandGenerator B R S)
      (queue events : List (Event D R))
      → (id == command.id) ≡ false
      → Agrees events (at (paused command resume) (queue ++ completed id reply ∷ []))
      → Agrees (completed id reply ∷ events) (at (paused command resume) queue)
  unfolding handle_event handle_paused
  unmatched-Agrees id reply command resume queue events e h =
      step-Agrees (completed id reply) (at (paused command resume) queue) events
        ([], at (paused command resume) (queue ++ completed id reply ∷ [])) none (rw e refl)
        (rw e refl) (requeue (paused command resume) (completed id reply) queue events h)

  matched-Agrees :
      (id : ℕ) (reply : R) (command : Command B) (resume : Option R → CommandGenerator B R S)
      (queue events : List (Event D R))
      → (id == command.id) ≡ true
      → Agrees events ((drain _handle_event ((process (resume (some reply))).1) queue).1)
      → Agrees (completed id reply ∷ events) (at (paused command resume) queue)
  unfolding handle_event handle_paused continue
  matched-Agrees id reply command resume queue events e h =
      let run = process (resume (some reply)) in
      let drained = drain _handle_event (run.1) queue in
      let rest = parts events (drained.1) in
      step-Agrees (completed id reply) (at (paused command resume) queue) events
        (continue _handle_event resume reply queue) (some reply) (rw e refl) (rw e refl)
        (after-after (run.0) (drained.0) (handle_events _handle_event events (drained.1))
          ∙ ap (λ r. after (run.0) (after (drained.0) r)) h
          ∙ ap (after (run.0))
              (sym (resume_all-drain _handle_event (run.1) queue (rest.0) (rest.1)))
          ∙ sym (finish-block _handle_event (resume (some reply)) (queue ++ rest.0) (rest.1)))

  events-Agrees :
      (events : List (Event D R)) (state : Paused B R S) (queue : List (Event D R))
      → IsWaiting (at state queue)
      → Agrees events (at state queue)
  unfolding handle_events
  events-Agrees [] (idle s) queue w = rw w refl
  events-Agrees [] (paused command resume) queue w =
      ap (λ l. ([], at (paused command resume) l)) (sym (append-nil queue))
  events-Agrees (event ∷ events) (idle s) queue w = idle-Agrees event s queue events w (
      events-Agrees events ((process (_handle_event event s)).1) []
        (process-IsWaiting (_handle_event event s)))
  events-Agrees (other d ∷ events) (paused command resume) queue w =
      other-Agrees d command resume queue events
        (events-Agrees events (paused command resume) (queue ++ other d ∷ []) tt)
  events-Agrees (completed id reply ∷ events) (paused command resume) queue w =
      let drained = (drain _handle_event ((process (resume (some reply))).1) queue).1 in
      let matched =
        events-Agrees events (drained.state) (drained.queue)
          (drain-IsWaiting ((process (resume (some reply))).1) queue) in
      let unmatched =
        events-Agrees events (paused command resume) (queue ++ completed id reply ∷ []) tt in
      elim (Bool-cases (id == command.id)) [
        | inl e ↦ matched-Agrees id reply command resume queue events e matched
        | inr e ↦ unmatched-Agrees id reply command resume queue events e unmatched
      ]

  -- A layer that starts at rest yields, over any sequence of events, the commands of blocking code:
  -- the events other than the awaited replies are handled in their order, each to its end before the
  -- next, and each blocking command takes the next of the replies that arrived. The layer ends in the
  -- state of that run, and its queue holds exactly the events that this run has not begun.
  pub handle_events-serve :
      (events : List (Event D R)) (s : S)
      → handle_events _handle_event events (at (idle s) [])
        ≡ serve _handle_event
            (idle s)
            ((parts events (at (idle s) [])).0)
            ((parts events (at (idle s) [])).1)
  handle_events-serve events s = events-Agrees events (idle s) [] refl
