-- ===== src/Proxy/Tcp.antt =====
-- `TCPLayer` of mitmproxy/proxy/layers/tcp.py as an instance of the layer.
pub mod Hooks
pub mod Relay
use middle_man.Base.{
  ℕ, suc, Bool, true, false, not, ◌&&◌, ◌||◌, Option, none, some, List, [], ◌∷◌, ◌++◌,
  if◌then◌else◌,
}
use middle_man.Proxy.Layer.{
  Blocking, blocks, goes_on, Command, Event, completed, other, CommandGenerator, stop, yields,
}

abbrev pub Bytes : Type 0
Bytes = List ℕ

-- `context.client` or `context.server`
pub data Peer : Type 0 where
  client server : Peer

-- the flags of a `ConnectionState`
pub record ConnectionState : Type 0 where
  pub can_read : Bool
  pub can_write : Bool

-- The events that the layer may get. What its code reads of the two connections comes with the event
-- whose handling reads it: whether `server.timestamp_start` is set, and their states.
pub data TcpEvent : Type 0 where
  start : Bool → TcpEvent
  data_received : Peer → Bytes → TcpEvent
  connection_closed : Peer → ConnectionState → ConnectionState → TcpEvent
  tcp_message_injected : Bool → Bytes → TcpEvent

-- The replies: a hook may have put another content into the last message, and a connection that could
-- not be opened has an error text; the empty text stands for None.
pub data Reply : Type 0 where
  hook_done : Option Bytes → Reply
  opened : Bytes → Reply

-- The commands; the last one stands for the AssertionError of `expect`.
pub data TcpCommand : Type 0 where
  tcp_start_hook tcp_message_hook tcp_end_hook tcp_error_hook : TcpCommand
  open_connection : Peer → TcpCommand
  close_connection : Peer → TcpCommand
  half_close : Peer → TcpCommand
  send_data : Peer → Bytes → TcpCommand
  assertion_error : TcpCommand

-- a `TCPMessage`
pub record Message : Type 0 where
  pub from_client : Bool
  pub content : Bytes

-- the attributes of a `TCPFlow` that the layer uses
pub record TcpFlow : Type 0 where
  pub messages : List Message
  pub error : Option Bytes
  pub live : Bool

-- the method that `_handle_event` is bound to
pub data Handler : Type 0 where
  starting relay_messages done : Handler

-- the layer's attributes; `made` counts the command objects, to tell them apart
pub record TcpState : Type 0 where
  pub handler : Handler
  pub flow : Option TcpFlow
  pub made : ℕ

abbrev pub Generator : Type 0
Generator = CommandGenerator TcpCommand Reply TcpState

-- `__init__`
abbrev pub new_layer : Bool → TcpState
new_layer ignore = record {
  handler = starting;
  flow = if ignore then none else some (record { messages = []; error = none; live = true });
  made = 0;
}

abbrev pub count_made : TcpState → TcpState
count_made s = record s { made = suc s.made }

-- `yield` of a command that does not block
abbrev pub tell : TcpCommand → TcpState → (TcpState → Generator) → Generator
tell command s next =
    yields (record { id = s.made; blocking = goes_on; asks = command })
      (λ sent. next (count_made s))

-- `yield` of a command that blocks, and what follows with the reply
abbrev pub ask : TcpCommand → TcpState → (Option Reply → TcpState → Generator) → Generator
ask command s next =
    yields (record { id = s.made; blocking = blocks; asks = command })
      (λ sent. next sent (count_made s))

-- `if self.flow: yield` of a hook
abbrev pub hook : TcpCommand → TcpState → (TcpState → Generator) → Generator
hook command s next = elim (s.flow) [ none ↦ next s | some flow ↦ ask command s (λ sent. next) ]

abbrev pub error_of : Option Reply → Bytes
error_of (some (opened err)) = err
error_of _ = []

abbrev pub goto : Handler → TcpState → TcpState
goto handler s = record s { handler = handler }

-- `self.flow.error = flow.Error(str(err))`
unfoldable pub set_error : Bytes → TcpState → TcpState
set_error err s = record s {
  flow = elim (s.flow) [ none ↦ none | some flow ↦ some (record flow { error = some err }) ];
}

-- what follows `OpenConnection`
unfoldable pub after_open : Option Reply → TcpState → Generator
unfolding set_error
after_open sent s = elim (error_of sent) [
  | [] ↦ stop (goto relay_messages s)
  | c ∷ err ↦
      hook tcp_error_hook (set_error (c ∷ err) s)
        (λ s. tell (close_connection client) s (λ s. stop (goto done s)))
]

-- `start`
unfoldable pub on_start : Bool → TcpState → Generator
unfolding after_open
on_start connected s = hook tcp_start_hook s (λ s.
    if connected then stop (goto relay_messages s) else ask (open_connection server) s after_open)

abbrev pub peer_of : Bool → Peer
peer_of from_client = if from_client then client else server

abbrev pub other_peer : Peer → Peer
other_peer client = server
other_peer server = client

abbrev pub is_client : Peer → Bool
is_client client = true
is_client server = false

-- `messages.append`
unfoldable pub append_message : Message → TcpState → TcpState
append_message message s = record s {
  flow = elim (s.flow) [
    | none ↦ none
    | some flow ↦ some (record flow { messages = flow.messages ++ message ∷ [] })
  ];
}

-- the content of the message behind the hook
unfoldable pub content_after : Option Reply → Bytes → Bytes
content_after (some (hook_done (some content))) old = content
content_after _ old = old

-- `relay_messages` on data. The message in the list is the object that the hook may change, so it is
-- written to the list with its content behind the hook; while the hook runs, `s` is the state before.
unfoldable pub relay_data : Peer → Bytes → TcpState → Generator
unfolding append_message content_after
relay_data peer content s = elim (s.flow) [
  | none ↦ tell (send_data (other_peer peer) content) s (λ s. stop s)
  | some flow ↦ ask tcp_message_hook s (λ sent s.
      let now = content_after sent content in
      tell (send_data (other_peer peer) now) s
        (λ s. stop (append_message (record { from_client = is_client peer; content = now }) s)))
]

-- `state is ConnectionState.CLOSED`
abbrev pub is_closed : ConnectionState → Bool
is_closed state = not (state.can_read || state.can_write)

abbrev pub close_unless : Bool → Peer → TcpState → (TcpState → Generator) → Generator
close_unless closed peer s next = if closed then next s else tell (close_connection peer) s next

-- `self.flow.live = False`
unfoldable pub set_dead : TcpState → TcpState
set_dead s = record s {
  flow = elim (s.flow) [ none ↦ none | some flow ↦ some (record flow { live = false }) ];
}

-- `relay_messages` on a closed connection
unfoldable pub relay_closed : Peer → ConnectionState → ConnectionState → TcpState → Generator
unfolding set_dead
relay_closed peer of_client of_server s =
    if of_client.can_read || of_server.can_read
    then tell (half_close (other_peer peer)) s (λ s. stop s)
    else close_unless (is_closed of_server) server (goto done s) (λ s.
      close_unless (is_closed of_client) client s
        (λ s. hook tcp_end_hook s (λ s. stop (set_dead s))))

-- The AssertionError of `expect`, told as a command. In the source it leaves `handle_event`, behind which
-- the layer takes the next event in the same state, as here; that it also leaves a replay of the queue,
-- whose rest then waits, is not modelled.
abbrev pub unexpected : TcpState → Generator
unexpected s = tell assertion_error s (λ s. stop s)

unfoldable pub on_relay : TcpEvent → TcpState → Generator
unfolding relay_data relay_closed
on_relay (start connected) s = unexpected s
on_relay (data_received peer content) s = relay_data peer content s
on_relay (connection_closed peer of_client of_server) s = relay_closed peer of_client of_server s
on_relay (tcp_message_injected from_client content) s = relay_data (peer_of from_client) content s

unfoldable pub on_event : Handler → TcpEvent → TcpState → Generator
unfolding on_start on_relay
on_event starting (start connected) s = on_start connected s
on_event starting _ s = unexpected s
on_event relay_messages event s = on_relay event s
on_event done (start connected) s = unexpected s
on_event done _ s = stop s

-- `_handle_event`
unfoldable pub _handle_event : Event TcpEvent Reply → TcpState → Generator
unfolding on_event
_handle_event (completed id reply) s = unexpected s
_handle_event (other event) s = on_event (s.handler) event s
