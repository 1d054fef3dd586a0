-- ===== src/Proxy/Stream/Handlers.antt =====
-- The states of a stream: what it does with each event.
use middle_man.Base.{
  Bool, true, false, not, ◌&&◌, ◌||◌, Option, none, some, [], ◌++◌, if◌then◌else◌,
}
use middle_man.Http.Headers.{Fields}
use middle_man.Proxy.Layer.{stop}
use middle_man.Proxy.Messages.{
  Streaming, off, on, callback, Response, client, server, HttpEvent, request_headers, request_data,
  request_trailers, request_end_of_message, response_headers, response_data, response_trailers,
  response_end_of_message, has_text, has_fields,
}
use middle_man.Proxy.Stream.{
  StreamState, wait_for_response_headers, stream_response_body, consume_response_body, done,
  errored, World, HttpStream, Generator, request_hook, response_headers_hook, hook, raise,
  set_request, set_response, client_to, server_to, with_response, is_done,
}
use middle_man.Proxy.Stream.Errors.{check_killed, check_invalid_response, make_server_connection}
use middle_man.Proxy.Stream.Bodies.{
  heard_request, heard_response, last_chunks, send, send_chunks, send_trailers, send_content,
  start_response_stream, stream_request_data, stream_response_data, flow_done, send_response,
}
use middle_man.Proxy.Stream.Sizes.{check_request_size, check_response_size}

abbrev pub is_streamed : Streaming → Bool
is_streamed off = false
is_streamed on = true
is_streamed (callback heard f) = true

module _ {C : Type 0} where
  -- a message in full: `SendHttp` of its headers, its content and its trailers
  abbrev pub send_request : HttpStream C → (HttpStream C → Generator C) → Generator C
  send_request s next =
      let request = s.flow.request in
      send
        (request_headers request (not (has_text (request.content) || has_fields (request.trailers)))
          none)
        server s
        (λ s.
          send_content request_data (request.content) server s
            (λ s. send_trailers request_trailers (request.trailers) server s next))

module _ {C : Type 0} (world : World C) where
  -- `state_stream_request_body`
  unfoldable pub on_stream_request : HttpEvent → HttpStream C → Generator C
  unfolding stream_request_data send_chunks flow_done
  on_stream_request (request_data body) s = stream_request_data body s (λ s. stop s)
  on_stream_request (request_trailers trailers) s =
      stop (set_request (record s.flow.request { trailers = some trailers }) s)
  on_stream_request request_end_of_message s =
      send_chunks request_data server (last_chunks (s.flow.request.stream)) (heard_request [] s)
        (λ s. hook request_hook s (λ s.
          send_trailers request_trailers (s.flow.request.trailers) server (client_to done s) (λ s.
            send request_end_of_message server s
              (λ s. if is_done (s.server_state) then flow_done world s else stop s))))
  on_stream_request _ s = raise s

  -- what follows `make_server_connection`
  abbrev pub request_on : Bool → HttpStream C → Generator C
  request_on ok s =
      if ok
      then send_request s (λ s. send request_end_of_message server s (λ s. stop s))
      else stop s

  -- the response that an addon has set, or the request for the server
  unfoldable pub request_by : Option Response → HttpStream C → Generator C
  unfolding check_killed send_response make_server_connection
  request_by (some response) s = hook response_headers_hook s (λ s.
      check_killed true s (λ killed s. if killed then stop s else send_response world false s))
  request_by none s = make_server_connection s request_on

  -- `state_consume_request_body` behind its `request` hook
  unfoldable pub after_request : HttpStream C → Generator C
  unfolding check_killed request_by
  after_request s =
      check_killed true s (λ killed s. if killed then stop s else request_by (s.flow.response) s)

  -- the buffered body becomes the content
  abbrev pub take_body : HttpStream C → HttpStream C
  take_body s =
      record (set_request (record s.flow.request { content = some s.request_body_buf }) s) {
        request_body_buf = [];
      }

  unfoldable pub on_consume_request : HttpEvent → HttpStream C → Generator C
  unfolding check_request_size after_request
  on_consume_request (request_data body) s =
      check_request_size world (record s { request_body_buf = s.request_body_buf ++ body })
        (λ stopped s. stop s)
  on_consume_request (request_trailers trailers) s =
      stop (set_request (record s.flow.request { trailers = some trailers }) s)
  on_consume_request request_end_of_message s =
      hook request_hook (client_to done (take_body s)) after_request
  on_consume_request _ s = raise s

  -- `state_wait_for_response_headers` behind its hook
  unfoldable pub after_response_headers : Bool → HttpStream C → Generator C
  unfolding check_killed start_response_stream
  after_response_headers end_stream s = check_killed true s (λ killed s.
      if killed
      then stop s
      else with_response s (λ response.
        if is_streamed (response.stream) && not end_stream
        then start_response_stream s (λ s. stop s)
        else stop (server_to consume_response_body s)))

  -- `check_invalid(False)` and the hook
  unfoldable pub greet_response : Bool → HttpStream C → Generator C
  unfolding check_invalid_response after_response_headers
  greet_response end_stream s = with_response s (λ response.
      check_invalid_response world response s (λ bad s.
        if bad then stop s else hook response_headers_hook s (after_response_headers end_stream)))

  unfoldable pub on_response_headers : HttpEvent → HttpStream C → Generator C
  unfolding check_response_size greet_response
  on_response_headers (response_headers response end_stream) s =
      if end_stream
      then greet_response end_stream (set_response response s)
      else check_response_size world response (set_response response s)
          (λ stopped s. if stopped then stop s else greet_response end_stream s)
  on_response_headers _ s = raise s

  -- `self.flow.response.trailers = event.trailers`
  abbrev pub keep_trailers : Fields → HttpStream C → Generator C
  keep_trailers trailers s =
      with_response s
        (λ response. stop (set_response (record response { trailers = some trailers }) s))

  -- `state_stream_response_body`
  unfoldable pub on_stream_response : HttpEvent → HttpStream C → Generator C
  unfolding stream_response_data send_chunks send_response
  on_stream_response (response_data body) s = stream_response_data body s (λ s. stop s)
  on_stream_response (response_trailers trailers) s = keep_trailers trailers s
  on_stream_response response_end_of_message s = with_response s (λ response.
      send_chunks response_data client (last_chunks (response.stream))
        (heard_response [] response s) (send_response world true))
  on_stream_response _ s = raise s

  abbrev pub take_response : Response → HttpStream C → HttpStream C
  take_response response s =
      record (set_response (record response { content = some s.response_body_buf }) s) {
        response_body_buf = [];
      }

  -- `state_consume_response_body`
  unfoldable pub on_consume_response : HttpEvent → HttpStream C → Generator C
  unfolding check_response_size send_response
  on_consume_response (response_data body) s =
      let grown = record s { response_body_buf = s.response_body_buf ++ body } in
      with_response grown
        (λ response. check_response_size world response grown (λ stopped s. stop s))
  on_consume_response (response_trailers trailers) s = keep_trailers trailers s
  on_consume_response response_end_of_message s =
      with_response s (λ response. send_response world false (take_response response s))
  on_consume_response _ s = raise s

  unfoldable pub on_server : StreamState → HttpEvent → HttpStream C → Generator C
  unfolding on_response_headers on_stream_response on_consume_response
  on_server wait_for_response_headers event s = on_response_headers event s
  on_server stream_response_body event s = on_stream_response event s
  on_server consume_response_body event s = on_consume_response event s
  on_server errored event s = stop s
  on_server _ event s = raise s
