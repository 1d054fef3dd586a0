-- ===== src/Proxy/Stream.antt =====
-- `HttpStream` of mitmproxy/proxy/layers/http/__init__.py as a layer: one request and its response.
-- This module has its state, its commands, and how a method yields; the methods are in the children.
pub mod Errors
pub mod Bodies
pub mod Sizes
pub mod Handlers
pub mod Connect
pub mod Passthrough
pub mod Requests
pub mod Ends
pub mod Cutting
pub mod Passed
pub mod Relaying
mod Tests
use middle_man.Base.{
  ℕ, suc, Bool, true, false, not, Option, none, some, List, [], ◌∷◌, if◌then◌else◌,
}
use middle_man.Http.Text.{Bytes}
use middle_man.Http.Headers.{Fields}
use middle_man.Net.Check.{Codec}
use middle_man.Proxy.Layer.{Blocking, blocks, goes_on, CommandGenerator, stop, yields}
use middle_man.Proxy.Messages.{HttpMode, ErrorCode, Request, Response, HttpFlow, Side, HttpEvent}

-- the methods that `client_state` and `server_state` are bound to
pub data StreamState : Type 0 where
  uninitialized wait_for_request_headers stream_request_body consume_request_body : StreamState
  wait_for_response_headers stream_response_body consume_response_body done errored : StreamState

-- the address of a server and whether it speaks TLS
pub record Server : Type 0 where
  pub address : Option (Bytes × ℕ)
  pub tls : Bool

-- the events and commands of the layer that a stream runs after an upgrade
pub data ChildEvent : Type 0 where
  child_start : ChildEvent
  data_received : Side → Bytes → ChildEvent
  connection_closed : Side → ChildEvent
  other_event : HttpEvent → ChildEvent

pub data ChildCommand : Type 0 where
  send_data : Side → Bytes → ChildCommand
  -- with whether only one half is closed
  close_connection : Side → Bool → ChildCommand
  other_command : ℕ → ChildCommand

-- The commands. The last one stands for an exception that ends the method.
pub data HttpCommand : Type 0 where
  request_headers_hook request_hook response_headers_hook response_hook error_hook : HttpCommand
  connect_hook connected_hook connect_error_hook : HttpCommand
  send_http : HttpEvent → Side → HttpCommand
  get_http_connection : Bytes → ℕ → Bool → HttpCommand
  open_connection close_server close_client : HttpCommand
  child_command : ChildCommand → HttpCommand
  drop_stream log exception : HttpCommand

-- What a reply brings. A hook leaves the flow as the addons have changed it. With every reply comes what
-- `check_killed` finds in the queue of paused events from then on: the message of a
-- RequestProtocolError that waits there. The text of an error that is empty stands for None.
pub data Reply : Type 0 where
  hook_done : HttpFlow → Option Bytes → Reply
  got_connection : Server → Bytes → Option Bytes → Reply
  opened : Bytes → Option Bytes → Reply

-- the world around a stream, with the layer `C` that it may run: options, the client, the decoding of
-- header values, and the codecs that an authority is read with
pub record World (C : Type 0) : Type 0 where
  pub mode : HttpMode
  pub stream_large_bodies : Option ℕ
  pub body_size_limit : Option ℕ
  pub validate_inbound_headers : Bool
  pub keep_host_header : Bool
  pub rawtcp : Bool
  pub is_eager : Bool
  pub is_reverse : Bool
  pub client_tls : Bool
  pub native : Bytes → List ℕ
  pub codec : Codec
  pub child_step : ChildEvent → C → List ChildCommand × C
  pub next_layer : C
  pub tcp_layer : C
  pub upstream_layer : C

-- The attributes; `passthrough` is whether `_handle_event` is bound to the method of that name, `made`
-- counts the command objects, and `peeked` is what `check_killed` finds in the queue.
pub record HttpStream (C : Type 0) : Type 0 where
  pub client_state : StreamState
  pub server_state : StreamState
  pub passthrough : Bool
  pub flow : HttpFlow
  pub request_body_buf : Bytes
  pub response_body_buf : Bytes
  pub child_layer : Option C
  pub context_server : Server
  pub peeked : Option Bytes
  pub made : ℕ

abbrev pub Generator : Type 0 → Type 0
Generator C = CommandGenerator HttpCommand Reply (HttpStream C)

-- the flow and the queue as they are when a reply is at hand
abbrev pub flow_after : Option Reply → HttpFlow → HttpFlow
flow_after (some (hook_done flow peeked)) old = flow
flow_after _ old = old

abbrev pub peeked_after : Option Reply → Option Bytes → Option Bytes
peeked_after none old = old
peeked_after (some (hook_done flow peeked)) old = peeked
peeked_after (some (got_connection found err peeked)) old = peeked
peeked_after (some (opened err peeked)) old = peeked

abbrev pub receive : {C : Type 0} → Option Reply → HttpStream C → HttpStream C
receive sent s = record s { flow = flow_after sent s.flow; peeked = peeked_after sent s.peeked }

module _ {C : Type 0} where
  abbrev pub count_made : HttpStream C → HttpStream C
  count_made s = record s { made = suc s.made }

  -- `yield` of a command that does not block
  abbrev pub tell : HttpCommand → HttpStream C → (HttpStream C → Generator C) → Generator C
  tell command s next =
      yields (record { id = s.made; blocking = goes_on; asks = command })
        (λ sent. next (count_made s))

  -- `yield` of a command that blocks
  abbrev pub ask :
      HttpCommand → HttpStream C → (Option Reply → HttpStream C → Generator C) → Generator C
  ask command s next =
      yields (record { id = s.made; blocking = blocks; asks = command })
        (λ sent. next sent (receive sent (count_made s)))

  abbrev pub hook : HttpCommand → HttpStream C → (HttpStream C → Generator C) → Generator C
  hook command s next = ask command s (λ sent. next)

  abbrev pub raise : HttpStream C → Generator C
  raise s = tell exception s (λ s. stop s)

  abbrev pub set_flow : HttpFlow → HttpStream C → HttpStream C
  set_flow flow s = record s { flow = flow }

  abbrev pub set_error : Bytes → HttpStream C → HttpStream C
  set_error message s = record s { flow = record s.flow { error = some message } }

  abbrev pub set_dead : HttpStream C → HttpStream C
  set_dead s = record s { flow = record s.flow { live = false } }

  abbrev pub set_request : Request → HttpStream C → HttpStream C
  set_request request s = record s { flow = record s.flow { request = request } }

  abbrev pub set_response : Response → HttpStream C → HttpStream C
  set_response response s = record s { flow = record s.flow { response = some response } }

  abbrev pub client_to : StreamState → HttpStream C → HttpStream C
  client_to state s = record s { client_state = state }

  abbrev pub server_to : StreamState → HttpStream C → HttpStream C
  server_to state s = record s { server_state = state }

  -- the code behind an `assert self.flow.response`
  abbrev pub with_response : HttpStream C → (Response → Generator C) → Generator C
  with_response s next = elim (s.flow.response) [ none ↦ raise s | some response ↦ next response ]

-- the tests on states
abbrev pub is_errored : StreamState → Bool
is_errored errored = true
is_errored _ = false

abbrev pub is_done : StreamState → Bool
is_done done = true
is_done _ = false

abbrev pub is_streaming_request : StreamState → Bool
is_streaming_request stream_request_body = true
is_streaming_request _ = false
