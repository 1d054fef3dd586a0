-- ===== src/Proxy/Next.antt =====
-- `NextLayer` of mitmproxy/proxy/layer.py: events wait until an addon has chosen the layer that handles
-- them. `arrival` is the class of an event, `decided` the layer that is set when the hook is completed.
pub mod Quiet
pub mod Forward
use middle_man.Base.{
  ℕ, suc, Bool, true, false, Option, none, some, List, [], ◌∷◌, ◌++◌, map, if◌then◌else◌,
}
use middle_man.Proxy.Layer.{
  Command, blocks, goes_on, Event, other, completed, CommandGenerator, stop, yields, Paused, idle,
  paused, Layer, handle_event, handle_events,
}

-- Start, the ConnectionClosed of the client, DataReceived, or another event
pub data Arrival : Type 0 where
  started client_closed data_received elsewise : Arrival

pub data NextCommand (B : Type 0) : Type 0 where
  next_layer_hook close_client : NextCommand B
  of_layer : B → NextCommand B

-- The attributes; `made` counts the hooks.
pub record NextLayer (B D R S : Type 0) : Type 0 where
  pub layer : Option (Layer B D R S)
  pub events : List (Event D R)
  pub ask_on_start : Bool
  pub made : ℕ

-- a command of the chosen layer, which keeps its identity and is not awaited again
abbrev pub pass_on : {B : Type 0} → Command B → Command (NextCommand B)
pass_on command = record {
  id = command.id;
  blocking = command.blocking;
  asks = of_layer command.asks;
}

abbrev pub class_of : {D R : Type 0} → (D → Arrival) → Event D R → Arrival
class_of arrival (other d) = arrival d
class_of arrival (completed id reply) = elsewise

module _ {B D R S : Type 0} where
  -- `yield from` commands of the chosen layer
  unfoldable pub yield_from :
      List (Command B) → NextLayer B D R S → CommandGenerator (NextCommand B) R (NextLayer B D R S)
  yield_from [] s = stop s
  yield_from (command ∷ commands) s = yields (pass_on command) (λ sent. yield_from commands s)

module _ {B D R S : Type 0} (_handle : Event D R → S → CommandGenerator B R S)
    (arrival : D → Arrival) (decided : R → Option (Layer B D R S)) where
  -- what `_ask` does once the hook is completed
  unfoldable pub after_ask :
      Option (Layer B D R S)
      → NextLayer B D R S
      → CommandGenerator (NextCommand B) R (NextLayer B D R S)
  unfolding yield_from
  after_ask none s = stop s
  after_ask (some layer) s =
      let run = handle_events _handle (s.events) layer in
      yield_from (run.0) (record s { layer = some (run.1); events = [] })

  abbrev pub choice : Option R → Option (Layer B D R S)
  choice none = none
  choice (some reply) = decided reply

  unfoldable pub _ask : NextLayer B D R S → CommandGenerator (NextCommand B) R (NextLayer B D R S)
  unfolding after_ask
  _ask s =
      yields (record { id = s.made; blocking = blocks; asks = next_layer_hook })
        (λ sent. after_ask (choice sent) (record s { made = suc s.made }))

  -- `_handle_event` while nothing is chosen
  unfoldable pub hold :
      Arrival → NextLayer B D R S → CommandGenerator (NextCommand B) R (NextLayer B D R S)
  unfolding _ask
  hold started s = if s.ask_on_start then _ask s else stop s
  hold client_closed s =
      yields (record { id = s.made; blocking = goes_on; asks = close_client })
        (λ sent. stop (record s { made = suc s.made }))
  hold data_received s = _ask s
  hold elsewise s = stop s

  -- `_handle_event`, which is the chosen layer's `handle_event` once there is one
  unfoldable pub _handle_event :
      Event D R → NextLayer B D R S → CommandGenerator (NextCommand B) R (NextLayer B D R S)
  unfolding hold yield_from
  _handle_event event s = elim (s.layer) [
    | none ↦ hold (class_of arrival event) (record s { events = s.events ++ event ∷ [] })
    | some layer ↦
        let run = handle_event _handle event layer in
        yield_from (run.0) (record s { layer = some (run.1) })
  ]

  -- `NextLayer.handle_event`, which calls the chosen layer without a detour
  unfoldable pub handle_next :
      Event D R
      → Layer (NextCommand B) D R (NextLayer B D R S)
      → List (Command (NextCommand B)) × Layer (NextCommand B) D R (NextLayer B D R S)
  unfolding _handle_event
  handle_next event outer = elim (outer.state) [
    | paused command resume ↦ handle_event _handle_event event outer
    | idle s ↦ elim (s.layer) [
      | none ↦ handle_event _handle_event event outer
      | some layer ↦
          let run = handle_event _handle event layer in
          (
            map pass_on (run.0),
            record { state = idle (record s { layer = some (run.1) }); queue = outer.queue },
          )
    ]
  ]

abbrev pub new_layer : {B D R S : Type 0} → Bool → NextLayer B D R S
new_layer ask_on_start = record { layer = none; events = []; ask_on_start = ask_on_start; made = 0 }
