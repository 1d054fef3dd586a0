-- ===== src/Proxy/Stream/Sizes.antt =====
-- How a stream checks the size of a body: the limits of the options.
use middle_man.Base.{ℕ, Bool, true, false, Option, none, some, [], ◌∷◌, ltb, if◌then◌else◌, length}
use middle_man.Http.Text.{Bytes, codes}
use middle_man.Http.Body
use middle_man.Http.Body.{expected_http_body_size}
use middle_man.Proxy.Messages.{
  request_too_large, response_too_large, on, Response, client, server, request_protocol_error,
  response_protocol_error,
}
use middle_man.Proxy.Stream.{
  errored, World, HttpStream, Generator, HttpCommand, request_headers_hook, response_headers_hook,
  error_hook, hook, set_error, set_dead, set_request, set_response, client_to, server_to,
}
use middle_man.Proxy.Stream.Bodies.{
  replay_request_data, send, start_request_stream, start_response_stream, stream_response_data,
}

-- the size of the body as far as it is known, where 0 stands for unknown
abbrev pub known_size : Body.BodySize → ℕ
known_size Body.unknown = 0
known_size Body.until_close = 0
known_size (Body.exact n) = n
known_size Body.invalid = 0

abbrev pub exceeds : ℕ → Option ℕ → Bool
exceeds size none = false
exceeds size (some limit) = ltb limit size

module _ {C : Type 0} (world : World C) where
  -- the two texts of options are empty
  abbrev pub is_unlimited : Bool
  is_unlimited = elim (world.stream_large_bodies) [
    | none ↦ elim (world.body_size_limit) [ none ↦ true | some limit ↦ false ]
    | some limit ↦ false
  ]

  -- `expected_size` of a request
  unfoldable pub request_size : HttpStream C → ℕ
  unfolding expected_http_body_size
  request_size s = elim (s.request_body_buf) [
    | [] ↦ known_size (
        expected_http_body_size (world.native) (s.flow.request.method) none
          (s.flow.request.headers))
    | c ∷ body ↦ length (c ∷ body)
  ]

  unfoldable pub response_size : Response → HttpStream C → ℕ
  unfolding expected_http_body_size
  response_size response s = elim (s.response_body_buf) [
    | [] ↦ known_size (
        expected_http_body_size (world.native) (s.flow.request.method) (some (response.status_code))
          (response.headers))
    | c ∷ body ↦ length (c ∷ body)
  ]

module _ {C : Type 0} where
  -- the error of a request that is too large. The text is shortened.
  abbrev pub request_exceeds : HttpStream C → (Bool → HttpStream C → Generator C) → Generator C
  request_exceeds s next =
      hook error_hook (set_error (codes "Request body exceeds mitmproxy's body_size_limit.") s)
        (λ s.
          send
            (response_protocol_error (codes "Request body exceeds mitmproxy's body_size_limit.")
              request_too_large)
            client s (λ s. next true (set_dead (client_to errored s))))

  abbrev pub response_exceeds : HttpStream C → (Bool → HttpStream C → Generator C) → Generator C
  response_exceeds s next =
      hook error_hook (set_error (codes "Response body exceeds mitmproxy's body_size_limit.") s)
        (λ s.
          send
            (response_protocol_error (codes "Response body exceeds mitmproxy's body_size_limit.")
              response_too_large)
            client s
            (λ s.
              send
                (request_protocol_error (codes "Response body exceeds mitmproxy's body_size_limit.")
                  response_too_large)
                server (client_to errored s) (λ s. next true (set_dead (server_to errored s)))))

  -- what is buffered of a body that is to be streamed
  unfoldable pub flush_request :
      Bytes → HttpStream C → (Bool → HttpStream C → Generator C) → Generator C
  unfolding start_request_stream replay_request_data
  flush_request [] s next = next false s
  flush_request (c ∷ body) s next =
      start_request_stream (record s { request_body_buf = [] })
        (λ s. replay_request_data (c ∷ body) s (next false))

  unfoldable pub flush_response :
      Bytes → HttpStream C → (Bool → HttpStream C → Generator C) → Generator C
  unfolding start_response_stream stream_response_data
  flush_response [] s next = next false s
  flush_response (c ∷ body) s next =
      start_response_stream (record s { response_body_buf = [] })
        (λ s. stream_response_data (c ∷ body) s (next false))

  -- step 3 of `check_body_size` for a request
  abbrev pub stream_request : HttpStream C → (Bool → HttpStream C → Generator C) → Generator C
  stream_request s next =
      flush_request (s.request_body_buf) (set_request (record s.flow.request { stream = on }) s)
        next

  abbrev pub stream_response :
      Response → HttpStream C → (Bool → HttpStream C → Generator C) → Generator C
  stream_response response s next =
      flush_response (s.response_body_buf) (set_response (record response { stream = on }) s) next

  -- the headers hook, if it has not been yielded yet
  abbrev pub announce :
      HttpCommand → Bytes → HttpStream C → (HttpStream C → Generator C) → Generator C
  announce headers_hook [] s next = hook headers_hook s next
  announce headers_hook (c ∷ body) s next = next s

module _ {C : Type 0} (world : World C) where
  -- `check_body_size(True)`, with what follows for either answer
  unfoldable pub check_request_size :
      HttpStream C → (Bool → HttpStream C → Generator C) → Generator C
  unfolding request_size flush_request
  check_request_size s next =
      if is_unlimited world
      then next false s
      else if exceeds (request_size world s) (world.body_size_limit)
      then announce request_headers_hook (s.request_body_buf) s (λ s. request_exceeds s next)
      else if exceeds (request_size world s) (world.stream_large_bodies)
      then stream_request s next
      else next false s

  -- `check_body_size(False)`
  unfoldable pub check_response_size :
      Response → HttpStream C → (Bool → HttpStream C → Generator C) → Generator C
  unfolding response_size flush_response
  check_response_size response s next =
      if is_unlimited world
      then next false s
      else if exceeds (response_size world response s) (world.body_size_limit)
      then announce response_headers_hook (s.response_body_buf) s (λ s. response_exceeds s next)
      else if exceeds (response_size world response s) (world.stream_large_bodies)
      then stream_response response s next
      else next false s
