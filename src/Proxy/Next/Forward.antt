-- ===== src/Proxy/Next/Forward.antt =====
-- What a NextLayer passes on to the layer that is chosen.
use mathlib.Core.Path.{subst}
use middle_man.Base.{
  map_append, ℕ, suc, ◌≡◌, refl, sym, ap, ◌∙◌, Bool, true, false, Option, none, some, List, [], ◌∷◌,
  ◌++◌, map, append_assoc, append-nil, ◌⊎◌, inl, inr,
}
use middle_man.Proxy.Layer.{
  Command, Event, CommandGenerator, Paused, idle, paused, Layer, is_blocking, wait_for, after,
  process, handle_event, handle_events,
}
use middle_man.Proxy.Layer.Reference.{at, block, serve, finish}
use middle_man.Proxy.Layer.Order.{parts, handle_events-serve}
use middle_man.Proxy.Next.{
  Arrival, started, client_closed, data_received, elsewise, NextCommand, of_layer, next_layer_hook,
  close_client, NextLayer, pass_on, yield_from, class_of, after_ask, hold, _ask, _handle_event,
  handle_next, new_layer,
}
use middle_man.Proxy.Next.Quiet.{
  IsQuiet, handle_event-IsQuiet, handle_events-IsQuiet, handle_events-append, block-yield_from,
}

-- the commands of the chosen layer among those of a NextLayer
abbrev child_of : {B : Type 0} → Command (NextCommand B) → List (Command B)
child_of command = elim (command.asks) [
  | next_layer_hook ↦ []
  | close_client ↦ []
  | of_layer b ↦ record { id = command.id; blocking = command.blocking; asks = b } ∷ []
]

abbrev pub children : {B : Type 0} → List (Command (NextCommand B)) → List (Command B)
children [] = []
children (command ∷ commands) = child_of command ++ children commands

children-pass_on :
    {B : Type 0} (commands : List (Command B)) → children (map pass_on commands) ≡ commands
children-pass_on [] = refl
children-pass_on (command ∷ commands) = ap (λ l. command ∷ l) (children-pass_on commands)

module _ {B D R S : Type 0} (_handle : Event D R → S → CommandGenerator B R S)
    (arrival : D → Arrival) (decided : R → Option (Layer B D R S)) where
  -- a run of the chosen layer as one of the NextLayer
  abbrev passed :
      NextLayer B D R S
      → List (Command B) × Layer B D R S
      → List (Command (NextCommand B)) × Layer (NextCommand B) D R (NextLayer B D R S)
  passed s run = (map pass_on (run.0), at (idle (record s { layer = some (run.1) })) [])

  serve-chosen :
      (layer : Layer B D R S) (s : NextLayer B D R S) (events : List (Event D R)) (replies : List R)
      → serve
          (_handle_event _handle arrival decided)
          (idle (record s { layer = some layer }))
          events
          replies
        ≡ passed s (handle_events _handle events layer)
  unfolding _handle_event handle_events
  serve-chosen layer s [] replies = refl
  serve-chosen layer s (event ∷ events) replies =
      let run = handle_event _handle event layer in
      let rest = handle_events _handle events (run.1) in
      rw
        (block-yield_from (run.0) (record s { layer = some (run.1) }) replies
          (handle_event-IsQuiet _handle event layer))
        (ap (after (map pass_on (run.0))) (serve-chosen (run.1) s events replies)
          ∙ ap (λ l. (l, at (idle (record s { layer = some (rest.1) })) []))
              (sym (map_append pass_on (run.0) (rest.0))))

  process-yield_from :
      (commands : List (Command B)) (s : NextLayer B D R S)
      → IsQuiet commands
      → process (yield_from commands s) ≡ (map pass_on commands, idle s)
  unfolding process yield_from is_blocking
  process-yield_from [] s quiet = refl
  process-yield_from (command ∷ commands) s (e, quiet) =
      rw (e, process-yield_from commands s quiet) refl

  -- The direct call of the chosen layer does what the events and the pauses of the NextLayer would do.
  pub handle_next-handle_event :
      (event : Event D R) (outer : Layer (NextCommand B) D R (NextLayer B D R S))
      → handle_next _handle arrival decided event outer
        ≡ handle_event (_handle_event _handle arrival decided) event outer
  unfolding handle_next handle_event _handle_event
  handle_next-handle_event event outer = by_state (outer.state)
    where
      by_layer :
          (s : NextLayer B D R S) (layer : Option (Layer B D R S))
          → handle_next _handle arrival decided event
              (at (idle (record s { layer = layer })) (outer.queue))
            ≡ handle_event
                (_handle_event _handle arrival decided)
                event
                (at (idle (record s { layer = layer })) (outer.queue))
      by_layer s none = refl
      by_layer s (some layer) =
          let run = handle_event _handle event layer in
          ap (λ r. (r.0, at (r.1) (outer.queue)))
            (sym (
              process-yield_from (run.0) (record s { layer = some (run.1) })
                (handle_event-IsQuiet _handle event layer)))

      by_state :
          (state : Paused (NextCommand B) R (NextLayer B D R S))
          → handle_next _handle arrival decided event (at state (outer.queue))
            ≡ handle_event (_handle_event _handle arrival decided) event (at state (outer.queue))
      by_state (paused command resume) = refl
      by_state (idle s) = by_layer s (s.layer)

  -- at rest without a choice, all events are held; with one, the chosen layer has handled them all
  abbrev Kept :
      Layer B D R S
      → List (Event D R)
      → List (Command B)
      → Paused (NextCommand B) R (NextLayer B D R S)
      → Type 0
  Kept first events commands (paused command resume) = commands ≡ []
  Kept first events commands (idle s) = elim (s.layer) [
    | none ↦ (commands ≡ []) × (s.events ≡ events)
    | some layer ↦ (commands, layer) ≡ handle_events _handle events first
  ]

  abbrev pub Forwards :
      Layer B D R S
      → List (Event D R)
      → List (Command (NextCommand B)) × Layer (NextCommand B) D R (NextLayer B D R S)
      → Type 0
  Forwards first events run = Kept first events (children (run.0)) (run.1.state)

  abbrev waiting : List (Event D R) → Bool → ℕ → NextLayer B D R S
  waiting events ask_on_start made = record {
    layer = none;
    events = events;
    ask_on_start = ask_on_start;
    made = made;
  }

  -- the layer handles what was held, and then what follows
  replay :
      (first : Layer B D R S) (held events : List (Event D R)) (ask_on_start : Bool) (made : ℕ)
      (replies : List R)
      → Forwards first (held ++ events) (
          finish
            (_handle_event _handle arrival decided)
            (block
              (after_ask _handle arrival decided (some first) (waiting held ask_on_start made))
              replies)
            events)
  unfolding after_ask
  replay first held events ask_on_start made replies =
      let run = handle_events _handle held first in
      let rest = handle_events _handle events (run.1) in
      let s = waiting [] ask_on_start made in
      rw
        (
          block-yield_from (run.0) (record s { layer = some (run.1) }) replies
              (handle_events-IsQuiet _handle held first),
          serve-chosen (run.1) s events replies,
        )
        (ap (λ l. (children l, rest.1)) (sym (map_append pass_on (run.0) (rest.0)))
          ∙ ap (λ l. (l, rest.1)) (children-pass_on (run.0 ++ rest.0))
          ∙ sym (handle_events-append _handle held events first))

  module _ (first : Layer B D R S)
      (fixed : (reply : R) → (decided reply ≡ none) ⊎ (decided reply ≡ some first)) where
    -- what follows a stream of events that are held
    abbrev Later : List (Event D R) → List (Event D R) → Bool → Type 0
    Later held events ask_on_start =
        (made : ℕ) (replies : List R)
        → Forwards first (held ++ events) (
            serve (_handle_event _handle arrival decided) (idle (waiting held ask_on_start made))
              events replies)

    ask-Forwards :
        (held events : List (Event D R)) (ask_on_start : Bool) (made : ℕ) (replies : List R)
        → Later held events ask_on_start
        → Forwards first (held ++ events) (
            finish
              (_handle_event _handle arrival decided)
              (block (_ask _handle arrival decided (waiting held ask_on_start made)) replies)
              events)
    unfolding _ask is_blocking wait_for after_ask
    ask-Forwards held events ask_on_start made [] later = refl
    ask-Forwards held events ask_on_start made (reply ∷ replies) later = elim (fixed reply) [
      | inl e ↦ rw (e) (later (suc made) replies)
      | inr e ↦ rw (e) (replay first held events ask_on_start (suc made) replies)
    ]

    hold-Forwards :
        (arrived : Arrival) (held events : List (Event D R)) (ask_on_start : Bool) (made : ℕ)
        (replies : List R)
        → Later held events ask_on_start
        → Forwards first (held ++ events) (
            finish
              (_handle_event _handle arrival decided)
              (block
                (hold _handle arrival decided arrived (waiting held ask_on_start made))
                replies)
              events)
    unfolding hold is_blocking
    hold-Forwards started held events true made replies later =
        ask-Forwards held events true made replies later
    hold-Forwards started held events false made replies later = later made replies
    hold-Forwards client_closed held events ask_on_start made [] later = later (suc made) []
    hold-Forwards client_closed held events ask_on_start made (reply ∷ replies) later =
        later (suc made) (reply ∷ replies)
    hold-Forwards data_received held events ask_on_start made replies later =
        ask-Forwards held events ask_on_start made replies later
    hold-Forwards elsewise held events ask_on_start made replies later = later made replies

    serve-Forwards :
        (before events : List (Event D R)) (ask_on_start : Bool) (made : ℕ) (replies : List R)
        → Forwards first (before ++ events) (
            serve
              (_handle_event _handle arrival decided)
              (idle (waiting before ask_on_start made))
              events
              replies)
    unfolding _handle_event
    serve-Forwards before [] ask_on_start made replies = (refl, sym (append-nil before))
    serve-Forwards before (event ∷ events) ask_on_start made replies =
        subst
          (λ all. Forwards first all (
            finish (_handle_event _handle arrival decided)
              (block
                (hold _handle arrival decided (class_of arrival event)
                  (waiting (before ++ event ∷ []) ask_on_start made))
                replies)
              events))
          (append_assoc before (event ∷ []) events)
          (hold-Forwards (class_of arrival event) (before ++ event ∷ []) events ask_on_start made
            replies
            (λ made replies.
              serve-Forwards (before ++ event ∷ []) events ask_on_start made replies))

    -- Over any sequence of events, whenever a NextLayer awaits no hook: if no layer has been chosen, it
    -- holds every event that reached it, in order, and has passed on no command; once an addon has
    -- chosen a layer, that layer has handled every event from the first on, in the order of their
    -- arrival and none twice, and its commands are those that were passed on. The events are those that
    -- are not replies to the hook.
    pub handle_events-Forwards :
        (events : List (Event D R)) (ask_on_start : Bool)
        → Forwards first
            ((parts
              (_handle_event _handle arrival decided)
              events
              (at (idle (new_layer ask_on_start)) [])).0)
            (handle_events
              (_handle_event _handle arrival decided)
              events
              (at (idle (new_layer ask_on_start)) []))
    handle_events-Forwards events ask_on_start =
        let all =
          parts (_handle_event _handle arrival decided) events
            (at (idle (new_layer ask_on_start)) []) in
        rw
          (handle_events-serve (_handle_event _handle arrival decided) events
            (new_layer ask_on_start))
          (serve-Forwards [] (all.0) ask_on_start 0 (all.1))
