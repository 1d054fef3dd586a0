-- ===== src/Proxy/Tcp/Relay.antt =====
-- What the TCP layer relays is what its flow records.
use mathlib.Core.Path.{subst}
use middle_man.Base.{
  ℕ, suc, ◌≡◌, refl, ◌∙◌, ap, sym, append_assoc, append-nil, Bool, true, false, Option, none, some,
  List, [], ◌∷◌, ◌++◌, ◌||◌, inl, inr, Bool-cases,
}
use middle_man.Proxy.Layer.{
  Command, Event, completed, other, stop, yields, Paused, idle, paused, is_blocking, wait_for,
  handle_events,
}
use middle_man.Proxy.Layer.Reference.{at, block, serve}
use middle_man.Proxy.Layer.Order.{parts, handle_events-serve}
use middle_man.Proxy.Tcp.{
  TcpEvent, start, data_received, connection_closed, tcp_message_injected, Reply, hook_done, opened,
  TcpCommand, ConnectionState, Peer, client, server, hook, close_unless, set_dead, Message,
  tcp_end_hook, send_data, TcpFlow, Handler, starting, relay_messages, done, TcpState, Generator,
  new_layer, after_open, on_start, relay_data, is_closed, relay_closed, peer_of, on_relay, on_event,
  _handle_event,
}

-- the message that a command passes on
abbrev pub sent_by : TcpCommand → List Message
sent_by (send_data server content) = record { from_client = true; content = content } ∷ []
sent_by (send_data client content) = record { from_client = false; content = content } ∷ []
sent_by _ = []

-- the messages that are passed on, in their order
abbrev pub sent_of : List (Command TcpCommand) → List Message
sent_of [] = []
sent_of (command ∷ commands) = sent_by (command.asks) ++ sent_of commands

-- the flow is there and has recorded these messages
abbrev pub Records : List Message → Option TcpFlow → Type 0
Records messages none = ⊥
Records messages (some flow) = flow.messages ≡ messages

abbrev pub Rests : List Message → Paused TcpCommand Reply TcpState → Type 0
Rests messages (idle s) = Records messages (s.flow)
Rests messages (paused command resume) = Unit

-- whatever the generator is sent, it stops with the messages recorded that it has passed on
abbrev pub Keeps : List Message → Generator → Type 0
Keeps messages (stop s) = Records messages (s.flow)
Keeps messages (yields command resume) =
    (sent : Option Reply) → Keeps (messages ++ sent_by (command.asks)) (resume sent)

Rests-append :
    (messages a b : List Message) (state : Paused TcpCommand Reply TcpState)
    → Rests ((messages ++ a) ++ b) state
    → Rests (messages ++ (a ++ b)) state
Rests-append messages a b state h = subst (λ l. Rests l state) (append_assoc messages a b) h

block-Rests :
    (messages : List Message) (g : Generator) (replies : List Reply)
    → Keeps messages g
    → Rests (messages ++ sent_of ((block g replies).0)) ((block g replies).1.0)
unfolding wait_for
block-Rests messages (stop s) replies h =
    subst (λ l. Records l (s.flow)) (sym (append-nil messages)) h
block-Rests messages (yields command resume) [] h = elim (Bool-cases (is_blocking command)) [
  | inl e ↦ rw e tt
  | inr e ↦ rw e (
      Rests-append messages (sent_by (command.asks)) (sent_of ((block (resume none) []).0))
        ((block (resume none) []).1.0)
        (block-Rests (messages ++ sent_by (command.asks)) (resume none) [] (h none)))
]
block-Rests messages (yields command resume) (reply ∷ replies) h =
    let next = block (resume (some reply)) replies in
    let rest = block (resume none) (reply ∷ replies) in
    elim (Bool-cases (is_blocking command)) [
      | inl e ↦ rw e (
          Rests-append messages (sent_by (command.asks)) (sent_of (next.0)) (next.1.0) (
            block-Rests (messages ++ sent_by (command.asks)) (resume (some reply)) replies
              (h (some reply))))
      | inr e ↦ rw e (
          Rests-append messages (sent_by (command.asks)) (sent_of (rest.0)) (rest.1.0) (
            block-Rests (messages ++ sent_by (command.asks)) (resume none) (reply ∷ replies)
              (h none)))
    ]

after_open-Keeps :
    (sent : Option Reply) (flow : TcpFlow) (made : ℕ)
    → Keeps
        (flow.messages)
        (after_open sent (record { handler = starting; flow = some flow; made = made }))
unfolding after_open
after_open-Keeps none flow made = refl
after_open-Keeps (some (hook_done content)) flow made = refl
after_open-Keeps (some (opened [])) flow made = refl
after_open-Keeps (some (opened (c ∷ err))) flow made = λ sent. λ sent. simp append-nil

pub on_start-Keeps :
    (connected : Bool) (flow : TcpFlow) (made : ℕ)
    → Keeps
        (flow.messages)
        (on_start connected (record { handler = starting; flow = some flow; made = made }))
unfolding on_start
on_start-Keeps true flow made = λ sent. simp append-nil
on_start-Keeps false flow made = λ sent. λ sent.
    subst
      (λ l.
        Keeps l (
          after_open sent (record { handler = starting; flow = some flow; made = suc (suc made) })))
      (simp append-nil) (after_open-Keeps sent flow (suc (suc made)))

pub relay_data-Keeps :
    (peer : Peer) (content : List ℕ) (flow : TcpFlow) (made : ℕ)
    → Keeps (flow.messages) (
        relay_data peer content
          (record { handler = relay_messages; flow = some flow; made = made }))
unfolding relay_data
relay_data-Keeps client content flow made = λ sent. λ sent. simp append-nil
relay_data-Keeps server content flow made = λ sent. λ sent. simp append-nil

closing-Keeps :
    (server_closed client_closed : Bool) (flow : TcpFlow) (made : ℕ)
    → Keeps (flow.messages) (
        close_unless server_closed server
          (record { handler = done; flow = some flow; made = made })
          (λ s.
            close_unless client_closed client s
              (λ s. hook tcp_end_hook s (λ s. stop (set_dead s)))))
unfolding set_dead
closing-Keeps true true flow made = λ sent. simp append-nil
closing-Keeps true false flow made = λ sent. λ sent. simp append-nil
closing-Keeps false true flow made = λ sent. λ sent. simp append-nil
closing-Keeps false false flow made = λ sent. λ sent. λ sent. simp append-nil

relay_closed-Keeps :
    (peer : Peer) (of_client of_server : ConnectionState) (flow : TcpFlow) (made : ℕ)
    → Keeps (flow.messages) (
        relay_closed peer of_client of_server
          (record { handler = relay_messages; flow = some flow; made = made }))
unfolding relay_closed
relay_closed-Keeps peer of_client of_server flow made =
    elim (Bool-cases (of_client.can_read || of_server.can_read)) [
      | inl e ↦ rw (e, relay_closed) (λ sent. simp append-nil)
      | inr e ↦
          rw (e, relay_closed) (closing-Keeps (is_closed of_server) (is_closed of_client) flow made)
    ]

on_event-Keeps :
    (handler : Handler) (event : TcpEvent) (flow : TcpFlow) (made : ℕ)
    → Keeps
        (flow.messages)
        (on_event handler event (record { handler = handler; flow = some flow; made = made }))
unfolding on_event on_relay
on_event-Keeps starting (start connected) flow made = on_start-Keeps connected flow made
on_event-Keeps starting (data_received peer content) flow made = λ sent. simp append-nil
on_event-Keeps starting (connection_closed peer c s) flow made = λ sent. simp append-nil
on_event-Keeps starting (tcp_message_injected b content) flow made = λ sent. simp append-nil
on_event-Keeps relay_messages (start connected) flow made = λ sent. simp append-nil
on_event-Keeps relay_messages (data_received peer content) flow made =
    relay_data-Keeps peer content flow made
on_event-Keeps relay_messages (connection_closed peer c s) flow made =
    relay_closed-Keeps peer c s flow made
on_event-Keeps relay_messages (tcp_message_injected b content) flow made =
    relay_data-Keeps (peer_of b) content flow made
on_event-Keeps done (start connected) flow made = λ sent. simp append-nil
on_event-Keeps done (data_received peer content) flow made = refl
on_event-Keeps done (connection_closed peer c s) flow made = refl
on_event-Keeps done (tcp_message_injected b content) flow made = refl

_handle_event-Keeps :
    (event : Event TcpEvent Reply) (messages : List Message) (handler : Handler)
    (flow : Option TcpFlow) (made : ℕ)
    → Records messages flow
    → Keeps messages (_handle_event event (record { handler = handler; flow = flow; made = made }))
unfolding _handle_event
_handle_event-Keeps event messages handler none made h = elim h [ ]
_handle_event-Keeps (completed id reply) messages handler (some flow) made h =
    λ sent. h ∙ sym (append-nil messages)
_handle_event-Keeps (other event) messages handler (some flow) made h =
    subst
      (λ l.
        Keeps l
          (on_event handler event (record { handler = handler; flow = some flow; made = made })))
      h (on_event-Keeps handler event flow made)

sent_of-append : (cs ds : List (Command TcpCommand)) → sent_of (cs ++ ds) ≡ sent_of cs ++ sent_of ds
sent_of-append [] ds = refl
sent_of-append (c ∷ cs) ds =
    ap (λ l. sent_by (c.asks) ++ l) (sent_of-append cs ds)
    ∙ sym (append_assoc (sent_by (c.asks)) (sent_of cs) (sent_of ds))

-- any layer over such states whose handler keeps the record
module _ (handle : Event TcpEvent Reply → TcpState → Generator)
    (keeps : (event : Event TcpEvent Reply) (messages : List Message) (handler : Handler)
        (flow : Option TcpFlow) (made : ℕ)
      → Records messages flow
      → Keeps messages
          (handle event (record { handler = handler; flow = flow; made = made }))) where
  pub serve-Rests :
      (messages : List Message) (state : Paused TcpCommand Reply TcpState)
      (events : List (Event TcpEvent Reply)) (replies : List Reply)
      → Rests messages state
      → Rests
          (messages ++ sent_of ((serve handle state events replies).0))
          ((serve handle state events replies).1.state)
  serve-Rests messages (paused command resume) events replies h = tt
  serve-Rests messages (idle s) [] replies h =
      subst (λ l. Records l (s.flow)) (sym (append-nil messages)) h
  serve-Rests messages (idle s) (event ∷ events) replies h =
      let run = block (handle event s) replies in
      let rest = serve handle (run.1.0) events (run.1.1) in
      subst (λ l. Rests (messages ++ l) (rest.1.state)) (sym (sent_of-append (run.0) (rest.0)))
        (Rests-append messages (sent_of (run.0)) (sent_of (rest.0)) (rest.1.state) (
          serve-Rests (messages ++ sent_of (run.0)) (run.1.0) events (run.1.1) (
            block-Rests messages (handle event s) replies
              (keeps event messages (s.handler) (s.flow) (s.made) h))))

-- Over any sequence of events and replies, whenever no reply is outstanding, the messages that the flow
-- of the TCP layer has recorded are those that the layer has passed on, with the contents that were
-- sent, each to the side that it did not come from, and in the same order.
pub handle_events-Rests :
    (events : List (Event TcpEvent Reply))
    → Rests
        (sent_of ((handle_events _handle_event events (at (idle (new_layer false)) [])).0))
        ((handle_events _handle_event events (at (idle (new_layer false)) [])).1.state)
handle_events-Rests events =
    let all = parts _handle_event events (at (idle (new_layer false)) []) in
    rw (handle_events-serve _handle_event events (new_layer false)) (
      serve-Rests _handle_event _handle_event-Keeps [] (idle (new_layer false)) (all.0) (all.1)
        refl)
