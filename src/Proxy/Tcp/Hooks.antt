-- ===== src/Proxy/Tcp/Hooks.antt =====
-- A TCP flow ends once: which hooks a whole run of the TCP layer yields.
use middle_man.Base.{
  ℕ, suc, ◌+◌, ◌-◌, ◌≤◌, ◌≡◌, Bool, true, false, Option, none, some, List, [], ◌∷◌, ◌++◌, ◌||◌,
  arith, inl, inr, Bool-cases, if◌then◌else◌,
}
use middle_man.Proxy.Layer.{
  Command, Event, completed, other, stop, yields, Paused, idle, paused, is_blocking, wait_for,
  handle_events,
}
use middle_man.Proxy.Layer.Reference.{at, block, serve}
use middle_man.Proxy.Layer.Order.{parts, handle_events-serve}
use middle_man.Proxy.Tcp.{
  TcpEvent, start, data_received, connection_closed, tcp_message_injected, Reply, hook_done, opened,
  TcpCommand, ConnectionState, Peer, client, server, other_peer, tell, hook, close_unless, set_dead,
  tcp_end_hook, tcp_error_hook, half_close, TcpFlow, Handler, starting, relay_messages, done,
  TcpState, Generator, new_layer, after_open, on_start, relay_data, is_closed, relay_closed,
  peer_of, on_relay, on_event, _handle_event,
}

-- 1 for the hooks that end a flow
abbrev pub weight : TcpCommand → ℕ
weight tcp_end_hook = 1
weight tcp_error_hook = 1
weight _ = 0

-- how many of the commands end a flow
abbrev pub ends : List (Command TcpCommand) → ℕ
ends [] = 0
ends (command ∷ commands) = weight (command.asks) + ends commands

-- how many such hooks may still come
abbrev pub allowance : Handler → Option TcpFlow → ℕ
allowance done flow = 0
allowance starting none = 0
allowance starting (some flow) = 1
allowance relay_messages none = 0
allowance relay_messages (some flow) = 1

abbrev pub left : Paused TcpCommand Reply TcpState → ℕ
left (idle s) = allowance (s.handler) (s.flow)
left (paused command resume) = 0

-- whatever it is sent, the generator yields such hooks at most `n` times, what may come later included
abbrev pub IsBounded : ℕ → Generator → Type 0
IsBounded n (stop s) = allowance (s.handler) (s.flow) ≤ n
IsBounded n (yields command resume) =
    (weight (command.asks) ≤ n)
    × ((sent : Option Reply) → IsBounded (n - weight (command.asks)) (resume sent))

block-ends :
    (n : ℕ) (g : Generator) (replies : List Reply)
    → IsBounded n g
    → ends ((block g replies).0) + left ((block g replies).1.0) ≤ n
unfolding wait_for
block-ends n (stop s) replies h = ground (arith, h)
block-ends n (yields command resume) [] (w, h) = elim (Bool-cases (is_blocking command)) [
  | inl e ↦ rw e (omega (arith, w))
  | inr e ↦
      rw e (omega (arith, w, block-ends (n - weight (command.asks)) (resume none) [] (h none)))
]
block-ends n (yields command resume) (reply ∷ replies) (w, h) =
    elim (Bool-cases (is_blocking command)) [
      | inl e ↦ rw e (
          omega (
            arith,
            w,
            block-ends (n - weight (command.asks)) (resume (some reply)) replies (h (some reply)),
          ))
      | inr e ↦ rw e (
          omega (
            arith,
            w,
            block-ends (n - weight (command.asks)) (resume none) (reply ∷ replies) (h none),
          ))
    ]

after_open-IsBounded :
    (sent : Option Reply) (flow : Option TcpFlow) (made : ℕ)
    → IsBounded
        (allowance starting flow)
        (after_open sent (record { handler = starting; flow = flow; made = made }))
unfolding after_open
after_open-IsBounded none none made = omega arith
after_open-IsBounded none (some flow) made = omega arith
after_open-IsBounded (some (hook_done content)) none made = omega arith
after_open-IsBounded (some (hook_done content)) (some flow) made = omega arith
after_open-IsBounded (some (opened [])) none made = omega arith
after_open-IsBounded (some (opened [])) (some flow) made = omega arith
after_open-IsBounded (some (opened (c ∷ err))) none made = (omega arith, λ sent. omega arith)
after_open-IsBounded (some (opened (c ∷ err))) (some flow) made =
    (omega arith, λ sent. (omega arith, λ sent. omega arith))

pub on_start-IsBounded :
    (connected : Bool) (flow : Option TcpFlow) (made : ℕ)
    → IsBounded
        (allowance starting flow)
        (on_start connected (record { handler = starting; flow = flow; made = made }))
unfolding on_start
on_start-IsBounded true none made = omega arith
on_start-IsBounded true (some flow) made = (omega arith, λ sent. omega arith)
on_start-IsBounded false none made =
    (omega arith, λ sent. after_open-IsBounded sent none (suc made))
on_start-IsBounded false (some flow) made = (
  omega arith,
  λ sent. (omega arith, λ sent. after_open-IsBounded sent (some flow) (suc (suc made))),
)

pub relay_data-IsBounded :
    (peer : Peer) (content : List ℕ) (flow : Option TcpFlow) (made : ℕ)
    → IsBounded
        (allowance relay_messages flow)
        (relay_data peer content (record { handler = relay_messages; flow = flow; made = made }))
unfolding relay_data
relay_data-IsBounded peer content none made = (omega arith, λ sent. omega arith)
relay_data-IsBounded peer content (some flow) made =
    (omega arith, λ sent. (omega arith, λ sent. omega arith))

closing-IsBounded :
    (server_closed client_closed : Bool) (flow : Option TcpFlow) (made : ℕ)
    → IsBounded (allowance relay_messages flow) (
        close_unless server_closed server
          (record { handler = done; flow = flow; made = made })
          (λ s.
            close_unless client_closed client s
              (λ s. hook tcp_end_hook s (λ s. stop (set_dead s)))))
unfolding set_dead
closing-IsBounded true true none made = omega arith
closing-IsBounded true true (some flow) made = (omega arith, λ sent. omega arith)
closing-IsBounded true false none made = (omega arith, λ sent. omega arith)
closing-IsBounded true false (some flow) made =
    (omega arith, λ sent. (omega arith, λ sent. omega arith))
closing-IsBounded false true none made = (omega arith, λ sent. omega arith)
closing-IsBounded false true (some flow) made =
    (omega arith, λ sent. (omega arith, λ sent. omega arith))
closing-IsBounded false false none made = (omega arith, λ sent. (omega arith, λ sent. omega arith))
closing-IsBounded false false (some flow) made =
    (omega arith, λ sent. (omega arith, λ sent. (omega arith, λ sent. omega arith)))

relay_closed-IsBounded :
    (peer : Peer) (of_client of_server : ConnectionState) (flow : Option TcpFlow) (made : ℕ)
    → IsBounded (allowance relay_messages flow) (
        relay_closed peer of_client of_server
          (record { handler = relay_messages; flow = flow; made = made }))
unfolding relay_closed
relay_closed-IsBounded peer of_client of_server flow made =
    elim (Bool-cases (of_client.can_read || of_server.can_read)) [
      | inl e ↦ rw (e, relay_closed) (half-IsBounded flow)
      | inr e ↦
          rw (e, relay_closed)
            (closing-IsBounded (is_closed of_server) (is_closed of_client) flow made)
    ]
  where
    half-IsBounded :
        (flow' : Option TcpFlow)
        → IsBounded (allowance relay_messages flow') (
            tell
              (half_close (other_peer peer))
              (record { handler = relay_messages; flow = flow'; made = made })
              (λ s. stop s))
    half-IsBounded none = (omega arith, λ sent. omega arith)
    half-IsBounded (some f) = (omega arith, λ sent. omega arith)

on_event-IsBounded :
    (handler : Handler) (event : TcpEvent) (flow : Option TcpFlow) (made : ℕ)
    → IsBounded
        (allowance handler flow)
        (on_event handler event (record { handler = handler; flow = flow; made = made }))
unfolding on_event on_relay
on_event-IsBounded starting (start connected) flow made = on_start-IsBounded connected flow made
on_event-IsBounded starting (data_received peer content) flow made =
    (omega arith, λ sent. omega arith)
on_event-IsBounded starting (connection_closed peer c s) flow made =
    (omega arith, λ sent. omega arith)
on_event-IsBounded starting (tcp_message_injected b content) flow made =
    (omega arith, λ sent. omega arith)
on_event-IsBounded relay_messages (start connected) flow made = (omega arith, λ sent. omega arith)
on_event-IsBounded relay_messages (data_received peer content) flow made =
    relay_data-IsBounded peer content flow made
on_event-IsBounded relay_messages (connection_closed peer c s) flow made =
    relay_closed-IsBounded peer c s flow made
on_event-IsBounded relay_messages (tcp_message_injected b content) flow made =
    relay_data-IsBounded (peer_of b) content flow made
on_event-IsBounded done (start connected) flow made = (omega arith, λ sent. omega arith)
on_event-IsBounded done (data_received peer content) flow made = omega arith
on_event-IsBounded done (connection_closed peer c s) flow made = omega arith
on_event-IsBounded done (tcp_message_injected b content) flow made = omega arith

_handle_event-IsBounded :
    (event : Event TcpEvent Reply) (s : TcpState)
    → IsBounded (allowance (s.handler) (s.flow)) (_handle_event event s)
unfolding _handle_event
_handle_event-IsBounded (completed id reply) s = (omega arith, λ sent. omega arith)
_handle_event-IsBounded (other event) s = on_event-IsBounded (s.handler) event (s.flow) (s.made)

ends-append : (cs ds : List (Command TcpCommand)) → ends (cs ++ ds) ≡ ends cs + ends ds
ends-append [] ds = omega arith
ends-append (c ∷ cs) ds = omega (arith, ends-append cs ds)

-- any layer over such states whose handler keeps to the bound
module _ (handle : Event TcpEvent Reply → TcpState → Generator)
    (bounded : (event : Event TcpEvent Reply) (s : TcpState)
      → IsBounded (allowance (s.handler) (s.flow)) (handle event s)) where
  pub serve-ends :
      (state : Paused TcpCommand Reply TcpState) (events : List (Event TcpEvent Reply))
      (replies : List Reply)
      → ends ((serve handle state events replies).0) ≤ left state
  serve-ends (paused command resume) events replies = omega arith
  serve-ends (idle s) [] replies = omega arith
  serve-ends (idle s) (event ∷ events) replies =
      let run = block (handle event s) replies in
      omega (
        arith,
        ends-append (run.0) ((serve handle (run.1.0) events (run.1.1)).0),
        serve-ends (run.1.0) events (run.1.1),
        block-ends (allowance (s.handler) (s.flow)) (handle event s) replies (bounded event s),
      )

-- Over any sequence of events and replies the TCP layer yields at most one hook that ends its flow, so
-- never both `tcp_error` and `tcp_end`, and never one of them twice; a layer that ignores the
-- connection yields none.
pub handle_events-ends :
    (ignore : Bool) (events : List (Event TcpEvent Reply))
    → ends ((handle_events _handle_event events (at (idle (new_layer ignore)) [])).0)
      ≤ (if ignore then 0 else 1)
handle_events-ends true events =
    let all = parts _handle_event events (at (idle (new_layer true)) []) in
    rw (handle_events-serve _handle_event events (new_layer true))
      (serve-ends _handle_event _handle_event-IsBounded (idle (new_layer true)) (all.0) (all.1))
handle_events-ends false events =
    let all = parts _handle_event events (at (idle (new_layer false)) []) in
    rw (handle_events-serve _handle_event events (new_layer false))
      (serve-ends _handle_event _handle_event-IsBounded (idle (new_layer false)) (all.0) (all.1))
