-- ===== src/Proxy/Udp/Flow.antt =====
-- The UDP layer records what it relays and ends its flow once.
use mathlib.Core.Path.{subst}
use middle_man.Base.{
  ℕ, ◌≤◌, ◌≡◌, refl, ◌∙◌, sym, append-nil, Bool, true, false, Option, none, some, List, [], arith,
}
use middle_man.Proxy.Layer.{Event, completed, other, idle, Layer, handle_events}
use middle_man.Proxy.Layer.Reference.{at}
use middle_man.Proxy.Layer.Order.{parts, handle_events-serve}
use middle_man.Proxy.Tcp.{
  TcpEvent, start, data_received, connection_closed, tcp_message_injected, Reply, Peer, peer_of,
  Message, TcpFlow, Handler, starting, relay_messages, done, TcpState, set_dead,
}
use middle_man.Proxy.Tcp.Hooks.{
  ends, allowance, IsBounded, on_start-IsBounded, relay_data-IsBounded, serve-ends,
}
use middle_man.Proxy.Tcp.Relay.{
  sent_of, Records, Rests, Keeps, on_start-Keeps, relay_data-Keeps, serve-Rests,
}
use middle_man.Proxy.Udp.{
  UdpCommand, new_layer, on_start, relay_data, relay_closed, on_relay, on_event, _handle_event,
}

relay_closed-IsBounded :
    (peer : Peer) (flow : Option TcpFlow) (made : ℕ)
    → IsBounded
        (allowance relay_messages flow)
        (relay_closed peer (record { handler = relay_messages; flow = flow; made = made }))
unfolding relay_closed
relay_closed-IsBounded peer none made = (omega arith, λ sent. omega arith)
relay_closed-IsBounded peer (some flow) made =
    (omega arith, λ sent. (omega arith, λ sent. omega arith))

on_event-IsBounded :
    (handler : Handler) (event : TcpEvent) (flow : Option TcpFlow) (made : ℕ)
    → IsBounded
        (allowance handler flow)
        (on_event handler event (record { handler = handler; flow = flow; made = made }))
unfolding on_event on_relay on_start relay_data
on_event-IsBounded starting (start connected) flow made = on_start-IsBounded connected flow made
on_event-IsBounded starting (data_received peer content) flow made =
    (omega arith, λ sent. omega arith)
on_event-IsBounded starting (connection_closed peer c s) flow made =
    (omega arith, λ sent. omega arith)
on_event-IsBounded starting (tcp_message_injected b content) flow made =
    (omega arith, λ sent. omega arith)
on_event-IsBounded relay_messages (start connected) flow made = (omega arith, λ sent. omega arith)
on_event-IsBounded relay_messages (data_received peer content) flow made =
    relay_data-IsBounded peer content flow made
on_event-IsBounded relay_messages (connection_closed peer c s) flow made =
    relay_closed-IsBounded peer flow made
on_event-IsBounded relay_messages (tcp_message_injected b content) flow made =
    relay_data-IsBounded (peer_of b) content flow made
on_event-IsBounded done (start connected) flow made = (omega arith, λ sent. omega arith)
on_event-IsBounded done (data_received peer content) flow made = omega arith
on_event-IsBounded done (connection_closed peer c s) flow made = omega arith
on_event-IsBounded done (tcp_message_injected b content) flow made = omega arith

_handle_event-IsBounded :
    (event : Event TcpEvent Reply) (s : TcpState)
    → IsBounded (allowance (s.handler) (s.flow)) (_handle_event event s)
unfolding _handle_event
_handle_event-IsBounded (completed id reply) s = (omega arith, λ sent. omega arith)
_handle_event-IsBounded (other event) s = on_event-IsBounded (s.handler) event (s.flow) (s.made)

on_event-Keeps :
    (handler : Handler) (event : TcpEvent) (flow : TcpFlow) (made : ℕ)
    → Keeps
        (flow.messages)
        (on_event handler event (record { handler = handler; flow = some flow; made = made }))
unfolding on_event on_relay on_start relay_data relay_closed set_dead
on_event-Keeps starting (start connected) flow made = on_start-Keeps connected flow made
on_event-Keeps starting (data_received peer content) flow made = λ sent. simp append-nil
on_event-Keeps starting (connection_closed peer c s) flow made = λ sent. simp append-nil
on_event-Keeps starting (tcp_message_injected b content) flow made = λ sent. simp append-nil
on_event-Keeps relay_messages (start connected) flow made = λ sent. simp append-nil
on_event-Keeps relay_messages (data_received peer content) flow made =
    relay_data-Keeps peer content flow made
on_event-Keeps relay_messages (connection_closed peer c s) flow made =
    λ sent. λ sent. simp append-nil
on_event-Keeps relay_messages (tcp_message_injected b content) flow made =
    relay_data-Keeps (peer_of b) content flow made
on_event-Keeps done (start connected) flow made = λ sent. simp append-nil
on_event-Keeps done (data_received peer content) flow made = refl
on_event-Keeps done (connection_closed peer c s) flow made = refl
on_event-Keeps done (tcp_message_injected b content) flow made = refl

_handle_event-Keeps :
    (event : Event TcpEvent Reply) (messages : List Message) (handler : Handler)
    (flow : Option TcpFlow) (made : ℕ)
    → Records messages flow
    → Keeps messages (_handle_event event (record { handler = handler; flow = flow; made = made }))
unfolding _handle_event
_handle_event-Keeps event messages handler none made h = elim h [ ]
_handle_event-Keeps (completed id reply) messages handler (some flow) made h =
    λ sent. h ∙ sym (append-nil messages)
_handle_event-Keeps (other event) messages handler (some flow) made h =
    subst
      (λ l.
        Keeps l
          (on_event handler event (record { handler = handler; flow = some flow; made = made })))
      h (on_event-Keeps handler event flow made)

abbrev pub rest_at : Bool → Layer UdpCommand TcpEvent Reply TcpState
rest_at ignore = at (idle (new_layer ignore)) []

-- Over any sequence of events and replies the UDP layer yields at most one hook that ends its flow, and
-- none if it ignores the connection; and whenever no reply is outstanding, the messages that a flow has
-- recorded are those that the layer has passed on, with the contents that were sent, in their order.
pub handle_events-flow :
    (events : List (Event TcpEvent Reply))
    → (ends ((handle_events _handle_event events (rest_at true)).0) ≡ 0)
      × (ends ((handle_events _handle_event events (rest_at false)).0) ≤ 1)
      × Rests
          (sent_of ((handle_events _handle_event events (rest_at false)).0))
          ((handle_events _handle_event events (rest_at false)).1.state)
handle_events-flow events =
    let ignored = parts _handle_event events (rest_at true) in
    let all = parts _handle_event events (rest_at false) in
    (
      rw (handle_events-serve _handle_event events (new_layer true)) (
          omega (
            arith,
            serve-ends _handle_event _handle_event-IsBounded (idle (new_layer true)) (ignored.0)
                (ignored.1),
          )),
      rw (handle_events-serve _handle_event events (new_layer false)) (
          serve-ends _handle_event _handle_event-IsBounded (idle (new_layer false)) (all.0)
            (all.1)),
      rw (handle_events-serve _handle_event events (new_layer false)) (
          serve-Rests _handle_event _handle_event-Keeps [] (idle (new_layer false)) (all.0) (all.1)
            refl),
    )
