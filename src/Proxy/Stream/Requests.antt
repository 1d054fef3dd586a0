-- ===== src/Proxy/Stream/Requests.antt =====
-- How a stream begins: the headers of the request, and the dispatch of its events.
use middle_man.Base.{ℕ, Bool, true, false, not, ◌&&◌, Option, none, some, [], ◌∷◌, if◌then◌else◌}
use middle_man.Http.Text.{Bytes, codes, bytes_eq, lower}
use middle_man.Http.Headers
use middle_man.Net.Authority.{parse_authority}
use middle_man.Proxy.Layer.{Event, completed, other, stop}
use middle_man.Proxy.Messages.{
  HttpMode, regular, transparent, upstream, destination_unknown, Request, HttpFlow, client,
  HttpEvent, start, request_headers, request_data, request_trailers, request_end_of_message,
  response_headers, request_protocol_error, response_protocol_error, get_or, is_multiplexed,
  hostport, set_host_header, host_header, make_response,
}
use middle_man.Proxy.Stream.{
  StreamState, wait_for_request_headers, stream_request_body, consume_request_body,
  wait_for_response_headers, errored, World, HttpStream, Generator, request_headers_hook, Reply,
  hook, raise, set_request, client_to, server_to,
}
use middle_man.Proxy.Stream.Errors.{
  check_killed, of_request, of_response, handle_protocol_error, check_invalid_request,
}
use middle_man.Proxy.Stream.Bodies.{send, start_request_stream}
use middle_man.Proxy.Stream.Sizes.{check_request_size}
use middle_man.Proxy.Stream.Connect.{handle_connect}
use middle_man.Proxy.Stream.Passthrough.{on_passthrough}
use middle_man.Proxy.Stream.Handlers.{is_streamed, on_stream_request, on_consume_request, on_server}

-- origin-form for HTTP/1 in regular mode
abbrev pub without_authority : HttpMode → Request → Request
without_authority regular request =
    if is_multiplexed (request.http_version) then request else record request { authority = [] }
without_authority transparent request = request
without_authority upstream request = request

module _ {C : Type 0} (world : World C) where
  -- the host, the port and the scheme of a request
  abbrev pub set_target : Bytes → ℕ → Bool → HttpStream C → HttpStream C
  set_target host port tls s =
      set_request
        (record s.flow.request {
          host = host;
          port = port;
          scheme = if tls then codes "https" else codes "http";
        })
        s

  -- the destination of a request whose target has no host, from its host header
  unfoldable pub target_of_header : HttpStream C → (HttpStream C → Generator C) → Generator C
  unfolding host_header parse_authority
  target_of_header s next =
      elim (parse_authority (world.codec)
        (get_or [] (host_header (world.native) (s.flow.request)))) [
          | none ↦
              send
                (response_protocol_error
                  (codes "HTTP request has no host header, destination unknown.")
                  destination_unknown)
                client s (λ s. stop (client_to errored s))
          | some target ↦ next (
              set_target (target.0) (get_or (if world.client_tls then 443 else 80) (target.1))
                (world.client_tls) s)
        ]

  -- the destination of the connection
  abbrev pub target_of_server :
      Option (Bytes × ℕ) → HttpStream C → (HttpStream C → Generator C) → Generator C
  target_of_server none s next = raise s
  target_of_server (some address) s next =
      next (set_target (address.0) (address.1) (s.context_server.tls) s)

  unfoldable pub find_by :
      HttpMode → Bytes → HttpStream C → (HttpStream C → Generator C) → Generator C
  unfolding target_of_header
  find_by transparent host s next = target_of_server (s.context_server.address) s next
  find_by regular [] s next = target_of_header s next
  find_by regular (c ∷ host) s next = next s
  find_by upstream [] s next = target_of_header s next
  find_by upstream (c ∷ host) s next = next s

  unfoldable pub find_target : HttpStream C → (HttpStream C → Generator C) → Generator C
  unfolding find_by
  find_target s next = find_by (world.mode) (s.flow.request.host) s next

  abbrev pub drop_authority : HttpStream C → HttpStream C
  drop_authority s = set_request (without_authority (world.mode) (s.flow.request)) s

  -- the host header of the connection's destination
  unfoldable pub host_of_server :
      Option (Bytes × ℕ) → HttpStream C → (HttpStream C → Generator C) → Generator C
  unfolding set_host_header hostport
  host_of_server none s next = raise s
  host_of_server (some address) s next =
      let scheme = if s.context_server.tls then codes "https" else codes "http" in
      next
        (set_request (set_host_header (hostport scheme (address.0) (address.1)) (s.flow.request)) s)

  -- the host header in reverse proxy mode
  unfoldable pub rewrite_host : HttpStream C → (HttpStream C → Generator C) → Generator C
  unfolding host_of_server
  rewrite_host s next =
      if world.is_reverse && not (world.keep_host_header)
      then host_of_server (s.context_server.address) s next
      else next s

  -- the answer to `Expect: 100-continue`, and the header's removal
  unfoldable pub expects_100 : HttpStream C → Bool
  unfolding Headers.get lower
  expects_100 s =
      bytes_eq
        (lower (get_or [] (Headers.get (world.native) (codes "expect") (s.flow.request.headers))))
        (codes "100-continue")

  unfoldable pub drop_expect : HttpStream C → HttpStream C
  unfolding Headers.del_item
  drop_expect s =
      let headers = s.flow.request.headers in
      set_request
        (record s.flow.request {
          headers = get_or headers (Headers.del_item (codes "expect") headers);
        })
        s

  unfoldable pub continue_100 : HttpStream C → (HttpStream C → Generator C) → Generator C
  unfolding expects_100 drop_expect make_response
  continue_100 s next =
      if expects_100 s
      then send (response_headers (record (make_response 100 []) { headers = [] }) false) client s
          (λ s. next (drop_expect s))
      else next s

  -- what follows the `requestheaders` hook
  unfoldable pub after_headers : Bool → HttpStream C → Generator C
  unfolding check_killed continue_100 start_request_stream
  after_headers end_stream s = check_killed true s (λ killed s.
      if killed
      then stop s
      else continue_100 s (λ s.
        if is_streamed (s.flow.request.stream) && not end_stream
        then start_request_stream s (λ s. stop (server_to wait_for_response_headers s))
        else stop (server_to wait_for_response_headers (client_to consume_request_body s))))

  abbrev pub greet_request : Bool → HttpStream C → Generator C
  greet_request end_stream s = hook request_headers_hook s (after_headers end_stream)

  -- `state_wait_for_request_headers` behind the validation
  unfoldable pub accept_request : Bool → HttpStream C → Generator C
  unfolding handle_connect find_target rewrite_host check_request_size after_headers
  accept_request end_stream s =
      if bytes_eq (s.flow.request.method) (codes "CONNECT")
      then handle_connect world s
      else find_target s (λ s. rewrite_host (drop_authority s) (λ s.
        if end_stream
        then greet_request end_stream s
        else check_request_size world s
            (λ stopped s. if stopped then stop s else greet_request end_stream s)))

  abbrev pub new_flow : Request → Option HttpFlow → HttpFlow
  new_flow request none = record { request = request; response = none; error = none; live = true }
  new_flow request (some replayed) = record replayed { request = request; live = true }

  -- `state_wait_for_request_headers`
  unfoldable pub on_request_headers : HttpEvent → HttpStream C → Generator C
  unfolding check_invalid_request accept_request
  on_request_headers (request_headers request end_stream replay) s =
      check_invalid_request world (record s { flow = new_flow request replay })
        (λ bad s. if bad then stop s else accept_request end_stream s)
  on_request_headers _ s = raise s

  unfoldable pub on_client : StreamState → HttpEvent → HttpStream C → Generator C
  unfolding on_request_headers on_stream_request on_consume_request
  on_client wait_for_request_headers event s = on_request_headers event s
  on_client stream_request_body event s = on_stream_request world event s
  on_client consume_request_body event s = on_consume_request world event s
  on_client errored event s = stop s
  on_client _ event s = raise s

  -- `_handle_event` until it is bound to `passthrough`
  unfoldable pub on_event : HttpEvent → HttpStream C → Generator C
  unfolding on_client on_server handle_protocol_error
  on_event start s = stop (client_to wait_for_request_headers s)
  on_event (request_protocol_error message code) s =
      handle_protocol_error (of_request message code) s (λ s. stop s)
  on_event (response_protocol_error message code) s =
      handle_protocol_error (of_response message code) s (λ s. stop s)
  on_event (request_headers request end_stream replay) s =
      on_client (s.client_state) (request_headers request end_stream replay) s
  on_event (request_data body) s = on_client (s.client_state) (request_data body) s
  on_event (request_trailers trailers) s = on_client (s.client_state) (request_trailers trailers) s
  on_event request_end_of_message s = on_client (s.client_state) request_end_of_message s
  on_event event s = on_server world (s.server_state) event s

-- An event with what `check_killed` finds in the queue while it is handled.
pub record Input : Type 0 where
  pub event : HttpEvent
  pub queued : Option Bytes

-- `_handle_event`
unfoldable pub _handle_event :
    {C : Type 0} → World C → Event Input Reply → HttpStream C → Generator C
unfolding on_event on_passthrough
_handle_event world (completed id reply) s = raise s
_handle_event world (other input) s =
    let seen = record s { peeked = input.queued } in
    if s.passthrough
    then on_passthrough world (input.event) seen
    else on_event world (input.event) seen
