-- ===== src/Proxy/Next/Quiet.antt =====
-- A layer awaits its own commands, so that the one that passes them on does not.
use middle_man.Base.{
  ◌≡◌, refl, sym, ap, ◌∙◌, false, none, some, List, [], ◌∷◌, ◌++◌, map, All, All-append, inl, inr,
  Bool-cases, ◌==◌,
}
use middle_man.Proxy.Layer.{
  Command, Event, CommandGenerator, stop, yields, Paused, idle, paused, Layer, is_blocking,
  wait_for, after, process, drain, continue, handle_paused, handle_event, handle_events, completed,
  other,
}
use middle_man.Proxy.Layer.Reference.{at, block, after-after}
use middle_man.Proxy.Next.{NextLayer, pass_on, yield_from}

-- no command is awaited by the layer that passes it on
abbrev pub IsQuiet : {B : Type 0} → List (Command B) → Type 0
IsQuiet commands = All (λ command. is_blocking command ≡ false) commands

module _ {B R S : Type 0} where
  process-IsQuiet : (g : CommandGenerator B R S) → IsQuiet ((process g).0)
  unfolding process is_blocking wait_for
  process-IsQuiet (stop s) = tt
  process-IsQuiet (yields command resume) = elim (Bool-cases (is_blocking command)) [
    | inl e ↦ rw (e) (refl, tt)
    | inr e ↦ rw (e) (e, process-IsQuiet (resume none))
  ]

module _ {B D R S : Type 0} (_handle : Event D R → S → CommandGenerator B R S) where
  drain-IsQuiet :
      (state : Paused B R S) (queue : List (Event D R)) → IsQuiet ((drain _handle state queue).0)
  unfolding drain
  drain-IsQuiet (paused command resume) queue = tt
  drain-IsQuiet (idle s) [] = tt
  drain-IsQuiet (idle s) (event ∷ queue) =
      All-append (λ command. is_blocking command ≡ false) ((process (_handle event s)).0) _
        (process-IsQuiet (_handle event s)) (drain-IsQuiet ((process (_handle event s)).1) queue)

  pub handle_event-IsQuiet :
      (event : Event D R) (layer : Layer B D R S) → IsQuiet ((handle_event _handle event layer).0)
  unfolding handle_event handle_paused continue
  handle_event-IsQuiet event layer = by_state (layer.state) event
    where
      by_state :
          (state : Paused B R S) (event : Event D R)
          → IsQuiet ((handle_event _handle event (at state (layer.queue))).0)
      by_state (idle s) event = process-IsQuiet (_handle event s)
      by_state (paused command resume) (other d) = tt
      by_state (paused command resume) (completed id reply) = elim (Bool-cases (id == command.id)) [
        | inl e ↦ rw (e) (
            All-append (λ command. is_blocking command ≡ false) ((process (resume (some reply))).0)
              _ (process-IsQuiet (resume (some reply)))
              (drain-IsQuiet ((process (resume (some reply))).1) (layer.queue)))
        | inr e ↦ rw (e) tt
      ]

  pub handle_events-IsQuiet :
      (events : List (Event D R)) (layer : Layer B D R S)
      → IsQuiet ((handle_events _handle events layer).0)
  unfolding handle_events
  handle_events-IsQuiet [] layer = tt
  handle_events-IsQuiet (event ∷ events) layer =
      All-append (λ command. is_blocking command ≡ false) ((handle_event _handle event layer).0) _
        (handle_event-IsQuiet event layer)
        (handle_events-IsQuiet events ((handle_event _handle event layer).1))

  pub handle_events-append :
      (before events : List (Event D R)) (layer : Layer B D R S)
      → handle_events _handle (before ++ events) layer
        ≡ after
            ((handle_events _handle before layer).0)
            (handle_events _handle events ((handle_events _handle before layer).1))
  unfolding handle_events
  handle_events-append [] events layer = refl
  handle_events-append (event ∷ before) events layer =
      let run = handle_event _handle event layer in
      ap (after (run.0)) (handle_events-append before events (run.1))
      ∙ sym (
          after-after (run.0) ((handle_events _handle before (run.1)).0)
            (handle_events _handle events ((handle_events _handle before (run.1)).1)))

module _ {B D R S : Type 0} where
  pub block-yield_from :
      (commands : List (Command B)) (s : NextLayer B D R S) (replies : List R)
      → IsQuiet commands
      → block (yield_from commands s) replies ≡ (map pass_on commands, (idle s, replies))
  unfolding yield_from is_blocking
  block-yield_from [] s replies quiet = refl
  block-yield_from (command ∷ commands) s [] (e, quiet) =
      rw (e, block-yield_from commands s [] quiet) refl
  block-yield_from (command ∷ commands) s (reply ∷ replies) (e, quiet) =
      rw (e, block-yield_from commands s (reply ∷ replies) quiet) refl
