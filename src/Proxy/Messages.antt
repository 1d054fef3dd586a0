-- ===== src/Proxy/Messages.antt =====
-- The events between HTTP layers (mitmproxy/proxy/layers/http/_events.py), and the parts of requests,
-- responses and flows (mitmproxy/http.py) that HttpStream uses.
use middle_man.Base.{
  ℕ, Bool, true, false, not, ◌||◌, Option, none, some, List, [], ◌∷◌, ◌++◌, ◌==◌, if◌then◌else◌,
  length,
}
use middle_man.Http.Text.{Bytes, codes, bytes_eq}
use middle_man.Http.Headers
use middle_man.Http.Headers.{Fields}
use middle_man.Http.Assemble.{decimal}

-- `HTTPMode`
pub data HttpMode : Type 0 where
  regular transparent upstream : HttpMode

pub data ErrorCode : Type 0 where
  generic_client_error generic_server_error request_too_large response_too_large : ErrorCode
  connect_failed passthrough_close kill http_1_1_required destination_unknown : ErrorCode
  client_disconnected cancel request_validation_failed response_validation_failed : ErrorCode

-- `http_status_code`
unfoldable pub http_status_code : ErrorCode → Option ℕ
http_status_code generic_client_error = some 400
http_status_code request_validation_failed = some 400
http_status_code destination_unknown = some 400
http_status_code request_too_large = some 413
http_status_code connect_failed = some 502
http_status_code generic_server_error = some 502
http_status_code response_validation_failed = some 502
http_status_code response_too_large = some 502
http_status_code passthrough_close = none
http_status_code kill = none
http_status_code http_1_1_required = none
http_status_code client_disconnected = none
http_status_code cancel = none

-- what a `stream` callback returns: one chunk or several
pub data Chunks : Type 0 where
  chunk : Bytes → Chunks
  many : List Bytes → Chunks

-- The attribute `stream`: False, True, or a callback. A callback may keep a state of its own: what it
-- returns is a function of all data that it has been given before, in order, and of the data of the call.
pub data Streaming : Type 0 where
  off on : Streaming
  callback : List Bytes → (List Bytes → Bytes → Chunks) → Streaming

pub record Request : Type 0 where
  pub method : Bytes
  pub scheme : Bytes
  pub host : Bytes
  pub port : ℕ
  pub authority : Bytes
  pub http_version : Bytes
  pub headers : Fields
  pub content : Option Bytes
  pub trailers : Option Fields
  pub stream : Streaming

pub record Response : Type 0 where
  pub http_version : Bytes
  pub status_code : ℕ
  pub headers : Fields
  pub content : Option Bytes
  pub trailers : Option Fields
  pub stream : Streaming

-- an `HTTPFlow`; `error` is the text of the flow's Error
pub record HttpFlow : Type 0 where
  pub request : Request
  pub response : Option Response
  pub error : Option Bytes
  pub live : Bool

-- the two ends that a stream talks to
pub data Side : Type 0 where
  client server : Side

-- An `HttpEvent`, or the Start event. All events of a stream have its id, which is left out.
pub data HttpEvent : Type 0 where
  start : HttpEvent
  request_headers : Request → Bool → Option HttpFlow → HttpEvent
  request_data : Bytes → HttpEvent
  request_trailers : Fields → HttpEvent
  request_end_of_message : HttpEvent
  response_headers : Response → Bool → HttpEvent
  response_data : Bytes → HttpEvent
  response_trailers : Fields → HttpEvent
  response_end_of_message : HttpEvent
  request_protocol_error : Bytes → ErrorCode → HttpEvent
  response_protocol_error : Bytes → ErrorCode → HttpEvent

-- `Error.KILLED_MESSAGE`
abbrev pub killed_message : Bytes
killed_message = codes "Connection killed."

-- truth of an optional text and of optional headers
abbrev pub has_text : Option Bytes → Bool
has_text none = false
has_text (some []) = false
has_text (some (c ∷ s)) = true

abbrev pub has_fields : Option Fields → Bool
has_fields none = false
has_fields (some []) = false
has_fields (some (field ∷ fields)) = true

-- `... or default`
abbrev pub get_or : {A : Type 0} → A → Option A → A
get_or default none = default
get_or default (some a) = a

-- `is_http11`, and whether the version is HTTP/2 or HTTP/3
abbrev pub is_http11 : Bytes → Bool
is_http11 version = bytes_eq version (codes "HTTP/1.1")

abbrev pub is_multiplexed : Bytes → Bool
is_multiplexed version = bytes_eq version (codes "HTTP/2.0") || bytes_eq version (codes "HTTP/3")

-- `default_port` and `hostport` of mitmproxy/net/http/url.py
unfoldable pub default_port : Bytes → Option ℕ
default_port scheme =
    if bytes_eq scheme (codes "http")
    then some 80
    else if bytes_eq scheme (codes "https")
    then some 443
    else none

unfoldable pub hostport : Bytes → Bytes → ℕ → Bytes
unfolding default_port decimal
hostport scheme host port =
    let long = host ++ (b':' ∷ decimal port) in
    elim (default_port scheme) [
      | none ↦ long
      | some standard ↦ if standard == port then host else long
    ]

-- the setter of `host_header` for a text
unfoldable pub set_host_header : Bytes → Request → Request
unfolding Headers.in_headers Headers.set_all
set_host_header value request =
    let multiplexed = is_multiplexed (request.http_version) in
    let headers = Headers.set_all (codes "Host") (value ∷ []) (request.headers) in
    record request {
      authority = if multiplexed then value else request.authority;
      headers =
          if not multiplexed || Headers.in_headers (codes "Host") (request.headers)
          then headers
          else request.headers;
    }

-- the getter of `host_header`, with `native` for the decoding of header values
unfoldable pub host_header : (Bytes → List ℕ) → Request → Option Bytes
unfolding Headers.get
host_header native request =
    let header = Headers.get native (codes "Host") (request.headers) in
    if is_multiplexed (request.http_version)
    then elim (request.authority) [ [] ↦ header | c ∷ s ↦ some (c ∷ s) ]
    else header

-- `Response.make` with a body that is ASCII
unfoldable pub make_response : ℕ → Bytes → Response
unfolding decimal
make_response status_code content = record {
  http_version = codes "HTTP/1.1";
  status_code = status_code;
  headers = (codes "content-length", decimal (length content)) ∷ [];
  content = some content;
  trailers = none;
  stream = off;
}
