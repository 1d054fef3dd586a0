-- ===== src/Proxy/Stream/Bodies.antt =====
-- How a stream passes bodies on: buffered or streamed, within the limits of the options.
use middle_man.Base.{
  ℕ, Bool, true, false, not, ◌||◌, Option, none, some, List, [], ◌∷◌, ◌++◌, ◌==◌, if◌then◌else◌,
}
use middle_man.Http.Text.{Bytes}
use middle_man.Http.Headers.{Fields}
use middle_man.Proxy.Layer.{stop}
use middle_man.Proxy.Messages.{
  chunk, many, Response, Streaming, off, on, callback, Side, client, server, HttpEvent,
  request_headers, request_data, response_headers, response_data, response_trailers,
  response_end_of_message, has_text, has_fields,
}
use middle_man.Proxy.Stream.{
  stream_request_body, stream_response_body, done, errored, World, HttpStream, Generator,
  response_hook, send_http, child_command, close_client, drop_stream, log, child_start,
  ChildCommand, tell, hook, raise, set_dead, client_to, server_to, with_response, is_done,
  is_streaming_request, set_request, set_response,
}
use middle_man.Proxy.Stream.Errors.{check_killed, make_server_connection}

-- what the stream callback or its absence makes of data
abbrev pub chunks_of : Streaming → Bytes → List Bytes
chunks_of off body = body ∷ []
chunks_of on body = body ∷ []
chunks_of (callback heard f) body = elim (f heard body) [
  | chunk one ↦ one ∷ []
  | many chunks ↦ chunks
]

-- the attribute after a call of the callback, if it is one
abbrev pub called : Streaming → Bytes → Streaming
called off body = off
called on body = on
called (callback heard f) body = callback (heard ++ body ∷ []) f

-- what it adds at the end of the message
abbrev pub last_chunks : Streaming → List Bytes
last_chunks off = []
last_chunks on = []
last_chunks (callback heard f) = elim (f heard []) [
  | chunk [] ↦ []
  | chunk (c ∷ s) ↦ (c ∷ s) ∷ []
  | many chunks ↦ chunks
]

module _ {C : Type 0} where
  abbrev pub send : HttpEvent → Side → HttpStream C → (HttpStream C → Generator C) → Generator C
  send event side s next = tell (send_http event side) s next

  abbrev pub send_if :
      Bool → HttpEvent → Side → HttpStream C → (HttpStream C → Generator C) → Generator C
  send_if wanted event side s next = if wanted then send event side s next else next s

  -- `for chunk in chunks: yield SendHttp(...)`
  unfoldable pub send_chunks :
      (Bytes → HttpEvent)
      → Side
      → List Bytes
      → HttpStream C
      → (HttpStream C → Generator C)
      → Generator C
  send_chunks event side [] s next = next s
  send_chunks event side (c ∷ chunks) s next =
      send (event c) side s (λ s. send_chunks event side chunks s next)

  -- trailers that are there and not empty
  abbrev pub send_trailers :
      (Fields → HttpEvent)
      → Option Fields
      → Side
      → HttpStream C
      → (HttpStream C → Generator C)
      → Generator C
  send_trailers event none side s next = next s
  send_trailers event (some []) side s next = next s
  send_trailers event (some (field ∷ fields)) side s next =
      send (event (field ∷ fields)) side s next

  -- content that is there and not empty
  abbrev pub send_content :
      (Bytes → HttpEvent)
      → Option Bytes
      → Side
      → HttpStream C
      → (HttpStream C → Generator C)
      → Generator C
  send_content event none side s next = next s
  send_content event (some []) side s next = next s
  send_content event (some (c ∷ body)) side s next = send (event (c ∷ body)) side s next

  -- `yield from self.child_layer.handle_event(events.Start())`
  unfoldable pub tell_all :
      List ChildCommand → HttpStream C → (HttpStream C → Generator C) → Generator C
  tell_all [] s next = next s
  tell_all (command ∷ commands) s next =
      tell (child_command command) s (λ s. tell_all commands s next)

  -- `start_request_stream`, with what follows its return
  unfoldable pub start_request_stream : HttpStream C → (HttpStream C → Generator C) → Generator C
  unfolding make_server_connection
  start_request_stream s next = elim (s.flow.response) [
    | some response ↦ raise s
    | none ↦ make_server_connection s (λ ok s.
        if ok
        then send (request_headers (s.flow.request) false none) server s
            (λ s. tell log s (λ s. next (client_to stream_request_body s)))
        else next (client_to errored s))
  ]

  -- `start_response_stream`
  unfoldable pub start_response_stream : HttpStream C → (HttpStream C → Generator C) → Generator C
  start_response_stream s next = with_response s (λ response.
      send (response_headers response false) client s
        (λ s. tell log s (λ s. next (server_to stream_response_body s))))

  -- the stream behind a call of the callback of its request, or of its response
  abbrev pub heard_request : Bytes → HttpStream C → HttpStream C
  heard_request body s =
      set_request (record s.flow.request { stream = called (s.flow.request.stream) body }) s

  abbrev pub heard_response : Bytes → Response → HttpStream C → HttpStream C
  heard_response body response s =
      set_response (record response { stream = called (response.stream) body }) s

  -- what `state_stream_request_body` and its counterpart do with data
  unfoldable pub stream_request_data :
      Bytes → HttpStream C → (HttpStream C → Generator C) → Generator C
  unfolding send_chunks
  stream_request_data body s next =
      send_chunks request_data server (chunks_of (s.flow.request.stream) body)
        (heard_request body s) next

  unfoldable pub stream_response_data :
      Bytes → HttpStream C → (HttpStream C → Generator C) → Generator C
  unfolding send_chunks
  stream_response_data body s next = with_response s (λ response.
      send_chunks response_data client (chunks_of (response.stream) body)
        (heard_response body response s) next)

  -- `handle_event(RequestData(...))` behind `start_request_stream`: the state is one of the two that it
  -- leaves, and neither of them blocks
  unfoldable pub replay_request_data :
      Bytes → HttpStream C → (HttpStream C → Generator C) → Generator C
  unfolding stream_request_data
  replay_request_data body s next =
      if is_streaming_request (s.client_state) then stream_request_data body s next else next s

module _ {C : Type 0} (world : World C) where
  -- `flow_done`
  unfoldable pub flow_done : HttpStream C → Generator C
  unfolding tell_all
  flow_done s = with_response (set_dead s) (λ response.
      if is_upgrade (response.status_code)
      then (if world.rawtcp
          then upgrade (record (set_dead s) { passthrough = true })
          else tell log (set_dead s)
              (λ s. tell close_client s (λ s. stop (client_to errored (server_to errored s)))))
      else tell drop_stream (set_dead s) end_message)
    where
      is_upgrade : ℕ → Bool
      is_upgrade status = status == 101

      end_message : HttpStream C → Generator C
      end_message s = send response_end_of_message client s (λ s. stop s)

      upgrade : HttpStream C → Generator C
      upgrade s =
          let run = world.child_step child_start (world.tcp_layer) in
          tell_all (run.0) (record s { child_layer = some (run.1) }) end_message

  -- the end of `send_response`
  unfoldable pub finish_response : HttpStream C → Generator C
  unfolding flow_done
  finish_response s = with_response s (λ response.
      send_trailers response_trailers (response.trailers) client s
        (λ s. if is_done (s.client_state) then flow_done s else stop s))

  -- `send_response` behind its hook
  unfoldable pub answer : Bool → HttpStream C → Generator C
  unfolding check_killed finish_response
  answer already_streamed s = check_killed false (server_to done s) (λ killed s.
      if killed
      then stop s
      else if already_streamed
      then finish_response s
      else with_response s (λ response.
        send
          (response_headers response
            (not (has_text (response.content) || has_fields (response.trailers))))
          client s (λ s. send_content response_data (response.content) client s finish_response)))

  unfoldable pub send_response : Bool → HttpStream C → Generator C
  unfolding answer
  send_response already_streamed s =
      with_response s (λ response. hook response_hook s (answer already_streamed))
