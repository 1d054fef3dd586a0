-- ===== src/Proxy/Stream/Tests.antt =====
-- A stream that serves one GET request, one that fails, and the small functions it uses.
use middle_man.Base.{ℕ, ◌≤◌, ◌≡◌, refl, true, false, none, some, List, [], ◌∷◌, map}
use middle_man.Http.Text.{Bytes, codes}
use middle_man.Proxy.Layer.{Event, completed, idle, handle_event, handle_events}
use middle_man.Proxy.Layer.Reference.{at}
use middle_man.Proxy.Messages.{
  Streaming, callback, many, regular, connect_failed, off, Request, Response, HttpFlow, client,
  server, start, request_headers, request_data, request_end_of_message, response_headers,
  response_data, response_end_of_message, response_protocol_error, http_status_code, hostport,
  set_host_header, host_header, make_response,
}
use middle_man.Proxy.Stream.{
  uninitialized, Server, HttpCommand, request_headers_hook, request_hook, response_headers_hook,
  response_hook, error_hook, send_http, get_http_connection, drop_stream, Reply, hook_done,
  got_connection, World, HttpStream,
}
use middle_man.Proxy.Stream.Requests.{Input, _handle_event}
use middle_man.Proxy.Stream.Cutting.{comes, buffering, answering, handle_events-cut}
use middle_man.Proxy.Stream.Relaying.{told, streaming, streaming_response, handle_events-relay}
use middle_man.Proxy.Stream.Ends.Events.{is_expected}
use middle_man.Proxy.Stream.Ends.Once.{handle_events-once}
use middle_man.Proxy.Stream.Ends.Spending.{ended}

abbrev world : World ℕ
world = record {
  mode = regular;
  stream_large_bodies = none;
  body_size_limit = none;
  validate_inbound_headers = false;
  keep_host_header = false;
  rawtcp = true;
  is_eager = true;
  is_reverse = false;
  client_tls = false;
  native = λ text. text;
  codec = record {
    idna_encode = λ text. some text;
    idna_decode = λ text. some text;
    utf8_decode = λ text. some text;
    utf8_encode = λ text. some text;
    surrogateescape = λ text. text;
    is_address = λ text. false;
    wide_digit = λ c. none;
  };
  child_step = λ event child. ([], child);
  next_layer = 0;
  tcp_layer = 0;
  upstream_layer = 0;
}

abbrev get_request : Request
get_request = record {
  method = codes "GET";
  scheme = codes "http";
  host = codes "a";
  port = 80;
  authority = [];
  http_version = codes "HTTP/1.1";
  headers = (codes "Host", codes "a") ∷ [];
  content = none;
  trailers = none;
  stream = off;
}

abbrev with_content : Request
with_content = record get_request { content = some [] }

abbrev requested : HttpFlow
requested = record { request = get_request; response = none; error = none; live = true }

abbrev consumed : HttpFlow
consumed = record requested { request = with_content }

abbrev headers_only : Response
headers_only = record (make_response 200 []) { headers = []; content = none }

abbrev whole : Response
whole = record headers_only { content = some (codes "hi") }

abbrev answered : Response → HttpFlow
answered response = record consumed { response = some response }

abbrev no_server : Server
no_server = record { address = none; tls = false }

abbrev fresh : HttpStream ℕ
fresh = record {
  client_state = uninitialized;
  server_state = uninitialized;
  passthrough = false;
  flow = requested;
  request_body_buf = [];
  response_body_buf = [];
  child_layer = none;
  context_server = no_server;
  peeked = none;
  made = 0;
}

-- no connection to the server
abbrev unreachable : List (Event Input Reply)
unreachable =
    comes start
    ∷ comes (request_headers get_request true none)
    ∷ completed 0 (hook_done requested none)
    ∷ comes request_end_of_message
    ∷ completed 1 (hook_done consumed none)
    ∷ completed 2 (got_connection no_server (codes "no") none)
    ∷ completed 3 (hook_done consumed none)
    ∷ []

abbrev exchange : List (Event Input Reply)
exchange =
    comes start
    ∷ comes (request_headers get_request true none)
    ∷ completed 0 (hook_done requested none)
    ∷ comes request_end_of_message
    ∷ completed 1 (hook_done consumed none)
    ∷ completed 2 (got_connection no_server [] none)
    ∷ comes (response_headers headers_only false)
    ∷ completed 5 (hook_done (answered headers_only) none)
    ∷ comes (response_data (codes "hi"))
    ∷ comes response_end_of_message
    ∷ completed 6 (hook_done (answered whole) none)
    ∷ []

abbrev commands_of : List (Event Input Reply) → List HttpCommand
commands_of events =
    map (λ c. c.asks) ((handle_events (_handle_event world) events (at (idle fresh) [])).0)

test_exchange :
    commands_of exchange
    ≡ request_headers_hook
      ∷ request_hook
      ∷ get_http_connection (codes "a") 80 false
      ∷ send_http (request_headers with_content true none) server
      ∷ send_http request_end_of_message server
      ∷ response_headers_hook
      ∷ response_hook
      ∷ send_http (response_headers whole false) client
      ∷ send_http (response_data (codes "hi")) client
      ∷ drop_stream
      ∷ send_http response_end_of_message client
      ∷ []
unfolding handle_events _handle_event
test_exchange = refl

test_unreachable :
    commands_of unreachable
    ≡ request_headers_hook
      ∷ request_hook
      ∷ get_http_connection (codes "a") 80 false
      ∷ error_hook
      ∷ send_http (response_protocol_error (codes "no") connect_failed) client
      ∷ drop_stream
      ∷ []
unfolding handle_events _handle_event
test_unreachable = refl

test_http_status_code : http_status_code connect_failed ≡ some 502
unfolding http_status_code
test_http_status_code = refl

test_hostport :
    map (hostport (codes "https") (codes "a")) (443 ∷ 80 ∷ []) ≡ codes "a" ∷ codes "a:80" ∷ []
unfolding hostport
test_hostport = refl

test_host_header :
    host_header (λ text. text) (set_host_header (codes "b") get_request) ≡ some (codes "b")
unfolding host_header set_host_header
test_host_header = refl

handle_events-once_example :
    ended ((handle_events (_handle_event world) exchange (at (idle fresh) [])).0) ≤ 1
unfolding _handle_event is_expected handle_event
handle_events-once_example = handle_events-once world fresh exchange refl refl

handle_events-cut_example :
    (handle_events
        (_handle_event world)
        (comes (request_data (codes "a"))
          ∷ comes (request_data (codes "b"))
          ∷ comes request_end_of_message
          ∷ [])
        (at (idle (buffering [] fresh)) [])
      ≡ handle_events
          (_handle_event world)
          (comes (request_data (codes "ab")) ∷ comes request_end_of_message ∷ [])
          (at (idle (buffering [] fresh)) []))
    × (handle_events
          (_handle_event world)
          (comes (response_data (codes "a"))
            ∷ comes (response_data (codes "b"))
            ∷ comes request_end_of_message
            ∷ [])
          (at (idle (answering whole [] fresh)) [])
        ≡ handle_events
            (_handle_event world)
            (comes (response_data (codes "ab")) ∷ comes request_end_of_message ∷ [])
            (at (idle (answering whole [] fresh)) []))
handle_events-cut_example =
    handle_events-cut world refl refl (codes "a" ∷ codes "b" ∷ []) [] whole fresh
      (comes request_end_of_message ∷ [])

-- a callback that adds all that it has been given before
abbrev repeats : (heard : List Bytes) → Streaming
repeats heard = callback heard (λ heard piece. many (piece ∷ heard))

handle_events-relay_example :
    (told (
        handle_events
          (_handle_event world)
          (comes (request_data (codes "a")) ∷ comes (request_data (codes "b")) ∷ [])
          (at (idle (streaming (repeats []) fresh)) []))
      ≡ (
        map (λ c. send_http (request_data c) server) (codes "a" ∷ codes "b" ∷ codes "a" ∷ []),
        at (idle (streaming (repeats (codes "a" ∷ codes "b" ∷ [])) (record fresh { made = 3 }))) [],
      ))
    × (told (
          handle_events
            (_handle_event world)
            (comes (response_data (codes "a")) ∷ comes (response_data (codes "b")) ∷ [])
            (at (idle (streaming_response (repeats []) whole fresh)) []))
        ≡ (
          map (λ c. send_http (response_data c) client) (codes "a" ∷ codes "b" ∷ codes "a" ∷ []),
          at
              (idle (
                streaming_response
                  (repeats (codes "a" ∷ codes "b" ∷ []))
                  whole
                  (record fresh { made = 3 })))
              [],
        ))
handle_events-relay_example =
    handle_events-relay world (repeats []) (codes "a" ∷ codes "b" ∷ []) whole fresh
