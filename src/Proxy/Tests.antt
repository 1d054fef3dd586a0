-- ===== src/Proxy/Tests.antt =====
-- A layer that opens a connection for each event and reports the reply.
use middle_man.Base.{
  ltb, Option, ◌⊎◌, inl, inr, Bool-cases, ◌==◌, if◌then◌else◌, false, true, ◌≤◌, map, ℕ, ◌+◌, ◌≡◌,
  refl, none, some, List, [], ◌∷◌,
}
use middle_man.Proxy.Layer.{
  blocks, goes_on, waited_for, Command, Event, completed, other, CommandGenerator, stop, yields,
  idle, Layer, handle_events,
}
use middle_man.Proxy.Layer.Reference.{at, serve}
use middle_man.Proxy.Buffer.{Call, adds, clears}
use middle_man.Proxy.Next
use middle_man.Proxy.Next.Forward.{Forwards, handle_events-Forwards}
use middle_man.Proxy.Tcp
use middle_man.Proxy.Udp
use middle_man.Proxy.Udp.Flow.{rest_at, handle_events-flow}
use middle_man.Proxy.Tcp.Relay.{sent_of, Rests, handle_events-Rests}
use middle_man.Proxy.Tcp.Hooks.{ends, handle_events-ends}
use middle_man.Proxy.Layer.Order.{parts, handle_events-serve}

abbrev ask : ℕ → ℕ → Command ℕ
ask id n = record { id = id; blocking = blocks; asks = n }

abbrev wait : ℕ → ℕ → Command ℕ
wait id n = record { id = id; blocking = waited_for; asks = n }

abbrev tell : ℕ → ℕ → Command ℕ
tell id n = record { id = id; blocking = goes_on; asks = n }

-- the state counts the commands
abbrev opener : Event ℕ ℕ → ℕ → CommandGenerator ℕ ℕ ℕ
opener (completed id reply) n = stop n
opener (other d) n = yields (ask n d) (λ reply. elim reply [
  | none ↦ stop (n + 1)
  | some r ↦ yields (tell (n + 1) r) (λ ignored. stop (n + 2))
])

abbrev trace : List (Event ℕ ℕ)
trace = other 10 ∷ other 20 ∷ completed 7 70 ∷ completed 0 100 ∷ other 30 ∷ completed 2 200 ∷ []

abbrev at_rest : Layer ℕ ℕ ℕ ℕ
at_rest = at (idle 0) []

test_commands :
    (handle_events opener trace at_rest).0
    ≡ wait 0 10 ∷ tell 1 100 ∷ wait 2 20 ∷ tell 3 200 ∷ wait 4 30 ∷ []
unfolding handle_events
test_commands = refl

test_queue : (handle_events opener trace at_rest).1.queue ≡ []
unfolding handle_events
test_queue = refl

test_parts :
    parts opener trace at_rest
    ≡ (other 10 ∷ other 20 ∷ completed 7 70 ∷ other 30 ∷ [], 100 ∷ 200 ∷ [])
unfolding handle_events
test_parts = refl

handle_events-serve_example :
    handle_events opener trace at_rest
    ≡ serve opener (idle 0) ((parts opener trace at_rest).0) ((parts opener trace at_rest).1)
handle_events-serve_example = handle_events-serve opener trace 0

-- data of the client, which an addon changes, then both connections closed
abbrev closed : Tcp.ConnectionState
closed = record { can_read = false; can_write = false }

abbrev writable : Tcp.ConnectionState
writable = record { can_read = false; can_write = true }

abbrev relayed : List (Event Tcp.TcpEvent Tcp.Reply)
relayed =
    other (Tcp.start true)
    ∷ completed 0 (Tcp.hook_done none)
    ∷ other (Tcp.data_received Tcp.client (104 ∷ []))
    ∷ completed 1 (Tcp.hook_done (some (72 ∷ [])))
    ∷ other (Tcp.connection_closed Tcp.server writable closed)
    ∷ []

test_relayed :
    map
      (λ c. c.asks)
      ((handle_events Tcp._handle_event relayed (at (idle (Tcp.new_layer false)) [])).0)
    ≡ Tcp.tcp_start_hook
      ∷ Tcp.tcp_message_hook
      ∷ Tcp.send_data Tcp.server (72 ∷ [])
      ∷ Tcp.close_connection Tcp.client
      ∷ Tcp.tcp_end_hook
      ∷ []
unfolding handle_events Tcp._handle_event
test_relayed = refl

handle_events-ends_example :
    ends ((handle_events Tcp._handle_event relayed (at (idle (Tcp.new_layer false)) [])).0) ≤ 1
handle_events-ends_example = handle_events-ends false relayed

handle_events-Rests_example :
    Rests
      (sent_of ((handle_events Tcp._handle_event relayed (at (idle (Tcp.new_layer false)) [])).0))
      ((handle_events Tcp._handle_event relayed (at (idle (Tcp.new_layer false)) [])).1.state)
handle_events-Rests_example = handle_events-Rests relayed

handle_events-flow_example :
    (ends ((handle_events Udp._handle_event relayed (rest_at true)).0) ≡ 0)
    × (ends ((handle_events Udp._handle_event relayed (rest_at false)).0) ≤ 1)
    × Rests
        (sent_of ((handle_events Udp._handle_event relayed (rest_at false)).0))
        ((handle_events Udp._handle_event relayed (rest_at false)).1.state)
handle_events-flow_example = handle_events-flow relayed

abbrev buffered : List Call
buffered = adds (1 ∷ []) ∷ clears ∷ adds (2 ∷ 3 ∷ []) ∷ adds [] ∷ adds (4 ∷ []) ∷ []

-- a layer that is chosen by the reply 1, for events of which those over 9 are data
abbrev arrival : ℕ → Next.Arrival
arrival d = if ltb 9 d then Next.data_received else if d == 0 then Next.started else Next.elsewise

abbrev decided : ℕ → Option (Layer ℕ ℕ ℕ ℕ)
decided reply = if reply == 1 then some at_rest else none

decided-fixed : (reply : ℕ) → (decided reply ≡ none) ⊎ (decided reply ≡ some at_rest)
decided-fixed reply = elim (Bool-cases (reply == 1)) [
  | inl e ↦ inr (rw e refl)
  | inr e ↦ inl (rw e refl)
]

-- the hook of the first data is not decided, that of the second is
abbrev arriving : List (Event ℕ ℕ)
arriving =
    other 0 ∷ other 10 ∷ completed 0 2 ∷ other 20 ∷ other 5 ∷ completed 1 1 ∷ completed 0 100 ∷ []

test_arriving :
    map
      (λ c. c.asks)
      ((handle_events
        (Next._handle_event opener arrival decided)
        arriving
        (at (idle (Next.new_layer false)) [])).0)
    ≡ Next.next_layer_hook
      ∷ Next.next_layer_hook
      ∷ Next.of_layer 0
      ∷ Next.of_layer 100
      ∷ Next.of_layer 10
      ∷ []
unfolding handle_events Next._handle_event
test_arriving = refl

handle_events-Forwards_example :
    Forwards opener arrival decided at_rest
      ((parts
        (Next._handle_event opener arrival decided)
        arriving
        (at (idle (Next.new_layer false)) [])).0)
      (handle_events
        (Next._handle_event opener arrival decided)
        arriving
        (at (idle (Next.new_layer false)) []))
handle_events-Forwards_example =
    handle_events-Forwards opener arrival decided at_rest decided-fixed arriving false
