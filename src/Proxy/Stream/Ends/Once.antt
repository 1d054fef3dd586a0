-- ===== src/Proxy/Stream/Ends/Once.antt =====
-- A flow ends once: which hooks a whole run of a stream yields.
use middle_man.Base.{◌≤◌, ◌≡◌, refl, Bool, true, false, not, ◌&&◌, ◌||◌, List, [], ◌∷◌, arith}
use middle_man.Proxy.Layer.{Event, completed, other, Paused, idle, paused, handle_events}
use middle_man.Proxy.Layer.Reference.{at, block, serve}
use middle_man.Proxy.Layer.Order.{parts, handle_events-serve}
use middle_man.Proxy.Stream.{uninitialized, HttpCommand, World, HttpStream, Reply, is_errored}
use middle_man.Proxy.Stream.Errors.{needs_error_hook}
use middle_man.Proxy.Stream.Requests.{Input, _handle_event}
use middle_man.Proxy.Stream.Ends.{is_early, is_over, Fits, Bounded}
use middle_man.Proxy.Stream.Ends.Events.{is_expected, handle_event-Bounded}
use middle_man.Proxy.Stream.Ends.Spending.{
  ended, one, credit_behind, dropped_behind, AtRest, block-Spends, ended-append,
}

-- the test of `fits`, for a stream that is early, over, failed, or passes events through
abbrev fitting : Bool → Bool → Bool → Bool → Bool → Bool
fitting early over failed credit passthrough =
    (not (early && over) && (credit || over || failed)) || passthrough

still-fits :
    (early over failed credit passthrough : Bool)
    → fitting early over failed credit passthrough ≡ true
    → fitting early over failed (not (failed || over)) passthrough ≡ true
still-fits early over failed credit passthrough h = ground (arith, h)

pass-fits :
    (early over failed passthrough : Bool)
    → fitting early over failed (not (failed || over)) passthrough ≡ true
    → fitting early over failed (not passthrough && not (failed || over)) passthrough ≡ true
pass-fits early over failed passthrough h = ground (arith, h)

credit-one :
    (early over failed credit passthrough : Bool)
    → fitting early over failed credit passthrough ≡ true
    → one (not passthrough && not (failed || over)) ≤ one credit
credit-one early over failed credit passthrough h = ground (arith, h)

both : (a b : Bool) → (a && b) ≡ true → (a ≡ true) × (b ≡ true)
both true b h = (refl, h)
both false b h = ground (arith, h)

module _ {C : Type 0} (world : World C) where
  -- an event that may come, for a stream at rest
  abbrev is_awaited : Event Input Reply → HttpStream C → Bool
  is_awaited (completed id reply) s = true
  is_awaited (other input) s =
      is_expected (input.event) (s.client_state) (s.server_state) (s.request_body_buf)

  -- Whether the events that a stream handles one after another are expected when their turn comes, and
  -- none follows once the stream is dropped.
  abbrev pub is_fair :
      Bool → Paused HttpCommand Reply (HttpStream C) → List (Event Input Reply) → List Reply → Bool
  is_fair dropped (paused command resume) events replies = true
  is_fair dropped (idle s) [] replies = true
  is_fair true (idle s) (event ∷ events) replies = false
  is_fair false (idle s) (event ∷ events) replies =
      let run = block (_handle_event world event s) replies in
      let rest = is_fair (dropped_behind false (run.0)) (run.1.0) events (run.1.1) in
      is_awaited event s && rest

  abbrev credit_of : HttpStream C → Bool
  credit_of s = not (s.passthrough) && needs_error_hook s

  event-Bounded :
      (event : Event Input Reply) (s : HttpStream C)
      → Fits false (needs_error_hook s) (s.client_state) (s.server_state) (s.passthrough)
      → is_awaited event s ≡ true
      → Bounded false (credit_of s) (_handle_event world event s)
  unfolding _handle_event needs_error_hook
  event-Bounded (completed id reply) s rests h = λ sent.
      pass-fits (is_early (s.client_state)) (is_over (s.server_state)) (is_errored (s.client_state))
        (s.passthrough) rests
  event-Bounded (other input) s rests h = handle_event-Bounded world input s rests h

  serve-ended :
      (dropped credit : Bool) (state : Paused HttpCommand Reply (HttpStream C))
      (events : List (Event Input Reply)) (replies : List Reply)
      → AtRest dropped credit state
      → is_fair dropped state events replies ≡ true
      → ended ((serve (_handle_event world) state events replies).0) ≤ one credit
  unfolding needs_error_hook
  serve-ended dropped credit (paused command resume) events replies rests fair = omega arith
  serve-ended dropped credit (idle s) [] replies rests fair = omega arith
  serve-ended true credit (idle s) (event ∷ events) replies rests fair = ground (arith, fair)
  serve-ended false credit (idle s) (event ∷ events) replies rests fair =
      let run = block (_handle_event world event s) replies in
      let early = is_early (s.client_state) in
      let over = is_over (s.server_state) in
      let failed = is_errored (s.client_state) in
      let (awaited, later) =
        both (is_awaited event s)
          (is_fair (dropped_behind false (run.0)) (run.1.0) events (run.1.1)) fair in
      let (n, next) = block-Spends false (credit_of s) (_handle_event world event s) replies (
        event-Bounded event s (still-fits early over failed credit (s.passthrough) rests)
          awaited) in
      omega (
        arith,
        ended-append (run.0) ((serve (_handle_event world) (run.1.0) events (run.1.1)).0),
        serve-ended (dropped_behind false (run.0)) (credit_behind (credit_of s) (run.0)) (run.1.0)
            events (run.1.1) next later,
        n,
        credit-one early over failed credit (s.passthrough) rests,
      )

-- A stream that begins yields at most one hook that ends its flow: never both `response` and `error`, and
-- neither twice, whatever the hooks change, and whatever is killed, refused or fails. The events that it
-- handles are expected when their turn comes, and none follows its DropStream.
pub handle_events-once :
    {C : Type 0} (world : World C) (s : HttpStream C) (events : List (Event Input Reply))
    → s.client_state ≡ uninitialized
    → is_fair world false
        (idle s)
        ((parts (_handle_event world) events (at (idle s) [])).0)
        ((parts (_handle_event world) events (at (idle s) [])).1)
      ≡ true
    → ended ((handle_events (_handle_event world) events (at (idle s) [])).0) ≤ 1
handle_events-once world s events new fair =
    let all = parts (_handle_event world) events (at (idle s) []) in
    rw (handle_events-serve (_handle_event world) events s)
      (serve-ended world false true (idle s) (all.0) (all.1) (rw (new) refl) fair)
