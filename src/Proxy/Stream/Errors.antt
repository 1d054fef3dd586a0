-- ===== src/Proxy/Stream/Errors.antt =====
-- How a stream ends early: killed, refused, or a protocol error.
use middle_man.Base.{Bool, true, false, not, ◌&&◌, ◌||◌, Option, none, some, [], ◌∷◌, if◌then◌else◌}
use middle_man.Http.Text.{Bytes, codes, bytes_eq}
use middle_man.Http.Validate
use middle_man.Http.Validate.{validate_headers}
use middle_man.Proxy.Messages.{
  HttpMode, regular, transparent, upstream, ErrorCode, kill, connect_failed,
  request_validation_failed, response_validation_failed, Request, Response, client, server,
  HttpEvent, request_protocol_error, response_protocol_error, killed_message, has_text, is_http11,
}
use middle_man.Proxy.Stream.{
  errored, World, HttpStream, Generator, request_headers_hook, error_hook, send_http,
  get_http_connection, close_server, drop_stream, Reply, got_connection, hook_done, opened, tell,
  ask, hook, raise, set_error, set_dead, client_to, server_to, is_errored, is_done,
  is_streaming_request,
}

-- `if not self.flow.error: self.flow.error = ...` for a message of the queue
abbrev pub noted : Option Bytes → Option Bytes → Option Bytes
noted none error = error
noted (some []) error = error
noted (some (c ∷ message)) none = some (c ∷ message)
noted (some (c ∷ message)) (some old) = some old

module _ {C : Type 0} where
  abbrev pub is_killed : HttpStream C → Bool
  is_killed s = elim (s.flow.error) [
    | none ↦ false
    | some message ↦ bytes_eq message killed_message
  ]

  abbrev pub note_remote : HttpStream C → HttpStream C
  note_remote s = record s { flow = record s.flow { error = noted s.peeked s.flow.error } }

  -- the response of a killed stream, and its state
  abbrev pub finish_killed : HttpStream C → (Bool → HttpStream C → Generator C) → Generator C
  finish_killed s next =
      tell (send_http (response_protocol_error (codes "killed") kill) client) s
        (λ s. next true (client_to errored (server_to errored (set_dead s))))

  -- `check_killed`, with what follows for either answer
  unfoldable pub check_killed :
      Bool → HttpStream C → (Bool → HttpStream C → Generator C) → Generator C
  check_killed emit_error_hook s next =
      let ended =
        if emit_error_hook
        then hook error_hook (note_remote s) (λ s. finish_killed s next)
        else finish_killed (note_remote s) next in
      if is_killed s || has_text (s.peeked) then ended else next false s

-- the two kinds of `handle_protocol_error`'s event
pub data ProtocolError : Type 0 where
  of_request of_response : Bytes → ErrorCode → ProtocolError

abbrev pub message_of : ProtocolError → Bytes
message_of (of_request message code) = message
message_of (of_response message code) = message

abbrev pub event_of : ProtocolError → HttpEvent
event_of (of_request message code) = request_protocol_error message code
event_of (of_response message code) = response_protocol_error message code

abbrev pub is_request_error : ProtocolError → Bool
is_request_error (of_request message code) = true
is_request_error (of_response message code) = false

module _ {C : Type 0} where
  -- `is_client_error_but_we_already_talk_upstream`
  unfoldable pub is_upstream_error : ProtocolError → HttpStream C → Bool
  is_upstream_error event s =
      is_request_error event
      && (is_streaming_request (s.client_state) || is_done (s.client_state))
      && not (is_done (s.server_state) || is_errored (s.server_state))

  unfoldable pub needs_error_hook : HttpStream C → Bool
  needs_error_hook s =
      not (is_errored (s.client_state) || (is_done (s.server_state) || is_errored (s.server_state)))

  -- `self.flow.live = False` and the DropStream
  abbrev pub drop : HttpStream C → (HttpStream C → Generator C) → Generator C
  drop s next = tell drop_stream (set_dead s) next

  -- what `handle_protocol_error` does behind `check_killed`
  unfoldable pub drop_after :
      ProtocolError → HttpStream C → (HttpStream C → Generator C) → Generator C
  drop_after (of_request message code) s next = drop s next
  drop_after (of_response message code) s next =
      if is_errored (s.client_state)
      then drop (server_to errored s) next
      else tell (send_http (response_protocol_error message code) client) s
          (λ s. drop (server_to errored s) next)

  abbrev pub after_report :
      ProtocolError → HttpStream C → (HttpStream C → Generator C) → Generator C
  after_report event s next =
      check_killed false s (λ killed s. if killed then next s else drop_after event s next)

  -- the error hook, if it is needed
  abbrev pub report_error :
      Bool → ProtocolError → HttpStream C → (HttpStream C → Generator C) → Generator C
  report_error needed event s next =
      if needed
      then hook error_hook (set_error (message_of event) s) (λ s. after_report event s next)
      else after_report event s next

  -- `handle_protocol_error`, with what follows its return
  unfoldable pub handle_protocol_error :
      ProtocolError → HttpStream C → (HttpStream C → Generator C) → Generator C
  unfolding check_killed is_upstream_error needs_error_hook drop_after
  handle_protocol_error event s next =
      if is_upstream_error event s
      then tell (send_http (event_of event) server) s
          (λ s'. report_error (needs_error_hook s) event (client_to errored s') next)
      else report_error (needs_error_hook s) event s next

-- whether a CONNECT stands where the mode has none
abbrev pub is_misplaced : HttpMode → Bytes → Bool
is_misplaced regular method = false
is_misplaced transparent method = bytes_eq method (codes "CONNECT")
is_misplaced upstream method = false

-- `validate_request`: whether it returns an error
unfoldable pub is_invalid_request : {C : Type 0} → World C → Request → Bool
unfolding validate_headers
is_invalid_request world request =
    let known =
      bytes_eq (request.scheme) (codes "http")
      || bytes_eq (request.scheme) (codes "https")
      || bytes_eq (request.scheme) [] in
    let malformed =
      not
        (validate_headers Validate.request (is_http11 (request.http_version)) (request.headers)) in
    not known
    || is_misplaced (world.mode) (request.method)
    || (world.validate_inbound_headers && malformed)

-- whether `validate_headers` raises for the response
unfoldable pub is_invalid_response : {C : Type 0} → World C → Response → Bool
unfolding validate_headers
is_invalid_response world response =
    world.validate_inbound_headers
    && not (
        validate_headers (Validate.response (response.status_code))
          (is_http11 (response.http_version)) (response.headers))

module _ {C : Type 0} where
  -- the hook and the answer to the client
  abbrev pub refused : ErrorCode → HttpStream C → (HttpStream C → Generator C) → Generator C
  refused code s next = hook error_hook s (λ s.
      tell (send_http (response_protocol_error (codes "refused") code) client) s
        (λ s. next (client_to errored (server_to errored (set_dead s)))))

  -- what `check_invalid` does with an error. The text of the message is shortened.
  abbrev pub refuse : Bool → ErrorCode → HttpStream C → (HttpStream C → Generator C) → Generator C
  refuse is_request code s next =
      if is_request
      then hook request_headers_hook (set_error (codes "refused") s) (λ s. refused code s next)
      else tell close_server (set_error (codes "refused") s) (λ s. refused code s next)

module _ {C : Type 0} (world : World C) where
  -- `check_invalid(True)`
  unfoldable pub check_invalid_request :
      HttpStream C → (Bool → HttpStream C → Generator C) → Generator C
  unfolding is_invalid_request
  check_invalid_request s next =
      if is_invalid_request world (s.flow.request)
      then refuse true request_validation_failed s (next true)
      else next false s

  -- `check_invalid(False)`; the option is read first
  unfoldable pub check_invalid_response :
      Response → HttpStream C → (Bool → HttpStream C → Generator C) → Generator C
  unfolding is_invalid_response
  check_invalid_response response s next =
      if is_invalid_response world response
      then refuse false response_validation_failed s (next true)
      else next false s

-- what `make_server_connection` does with the reply; anything else fails to unpack
unfoldable pub use_connection :
    {C : Type 0} → Option Reply → HttpStream C → (Bool → HttpStream C → Generator C) → Generator C
unfolding handle_protocol_error
use_connection none s next = raise s
use_connection (some (hook_done flow peeked)) s next = raise s
use_connection (some (opened err peeked)) s next = raise s
use_connection (some (got_connection found [] peeked)) s next =
    next true (record s { context_server = found })
use_connection (some (got_connection found (c ∷ err) peeked)) s next =
    handle_protocol_error (of_response (c ∷ err) connect_failed) s (next false)

-- `make_server_connection`, with what follows for either answer
unfoldable pub make_server_connection :
    {C : Type 0} → HttpStream C → (Bool → HttpStream C → Generator C) → Generator C
unfolding use_connection
make_server_connection s next =
    let request = s.flow.request in
    ask
      (get_http_connection (request.host) (request.port)
        (bytes_eq (request.scheme) (codes "https")))
      s (λ sent s. use_connection sent s next)
