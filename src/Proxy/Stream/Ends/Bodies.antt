-- ===== src/Proxy/Stream/Ends/Bodies.antt =====
-- The hooks of a stream while it passes bodies on and sends the response.
use middle_man.Base.{
  refl, Bool, true, false, Option, none, some, List, [], ◌∷◌, inl, inr, Bool-cases, if◌then◌else◌,
}
use middle_man.Http.Text.{Bytes}
use middle_man.Http.Headers.{Fields}
use middle_man.Proxy.Messages.{Side, server, HttpEvent, request_headers, Response}
use middle_man.Proxy.Stream.{
  stream_request_body, stream_response_body, errored, ChildCommand, HttpStream, Generator,
  is_streaming_request, with_response, raise, log, tell, client_to, count_made,
}
use middle_man.Proxy.Stream.Errors.{make_server_connection}
use middle_man.Proxy.Stream.Bodies.{
  heard_request, heard_response, send, send_chunks, send_trailers, send_content, tell_all,
  start_request_stream, start_response_stream, stream_request_data, stream_response_data,
  replay_request_data,
}
use middle_man.Proxy.Stream.Ends.{Fits, Bounded, Next}
use middle_man.Proxy.Stream.Ends.Errors.{make_server_connection-Bounded}

module _ {C : Type 0} (dropped credit : Bool) where
  pub send_chunks-Bounded :
      (event : Bytes → HttpEvent) (side : Side) (chunks : List Bytes) (s : HttpStream C)
      (next : HttpStream C → Generator C)
      → Next dropped credit (s.client_state) (s.server_state) (s.passthrough) next
      → Bounded dropped credit (send_chunks event side chunks s next)
  unfolding send_chunks
  send_chunks-Bounded event side [] s next h = h s refl refl refl
  send_chunks-Bounded event side (c ∷ chunks) s next h =
      λ sent. send_chunks-Bounded event side chunks (count_made s) next h

  pub tell_all-Bounded :
      (commands : List ChildCommand) (s : HttpStream C) (next : HttpStream C → Generator C)
      → Next dropped credit (s.client_state) (s.server_state) (s.passthrough) next
      → Bounded dropped credit (tell_all commands s next)
  unfolding tell_all
  tell_all-Bounded [] s next h = h s refl refl refl
  tell_all-Bounded (command ∷ commands) s next h =
      λ sent. tell_all-Bounded commands (count_made s) next h

  pub send_trailers-Bounded :
      (event : Fields → HttpEvent) (trailers : Option Fields) (side : Side) (s : HttpStream C)
      (next : HttpStream C → Generator C)
      → Next dropped credit (s.client_state) (s.server_state) (s.passthrough) next
      → Bounded dropped credit (send_trailers event trailers side s next)
  send_trailers-Bounded event none side s next h = h s refl refl refl
  send_trailers-Bounded event (some []) side s next h = h s refl refl refl
  send_trailers-Bounded event (some (field ∷ fields)) side s next h = λ sent. h _ refl refl refl

  pub send_content-Bounded :
      (event : Bytes → HttpEvent) (content : Option Bytes) (side : Side) (s : HttpStream C)
      (next : HttpStream C → Generator C)
      → Next dropped credit (s.client_state) (s.server_state) (s.passthrough) next
      → Bounded dropped credit (send_content event content side s next)
  send_content-Bounded event none side s next h = h s refl refl refl
  send_content-Bounded event (some []) side s next h = h s refl refl refl
  send_content-Bounded event (some (c ∷ body)) side s next h = λ sent. h _ refl refl refl

  pub with_response-Bounded :
      (s : HttpStream C) (next : Response → Generator C)
      → Fits dropped credit (s.client_state) (s.server_state) (s.passthrough)
      → ((response : Response) → Bounded dropped credit (next response))
      → Bounded dropped credit (with_response s next)
  with_response-Bounded s next rests h = by_response (s.flow.response)
    where
      by_response :
          (response : Option Response)
          → Bounded dropped credit
              (elim response [ none ↦ raise s | some response ↦ next response ])
      by_response none = λ sent. rests
      by_response (some response) = h response

  pub stream_response_data-Bounded :
      (body : Bytes) (s : HttpStream C) (next : HttpStream C → Generator C)
      → Fits dropped credit (s.client_state) (s.server_state) (s.passthrough)
      → Next dropped credit (s.client_state) (s.server_state) (s.passthrough) next
      → Bounded dropped credit (stream_response_data body s next)
  unfolding stream_response_data
  stream_response_data-Bounded body s next rests h =
      with_response-Bounded s _ rests
        (λ response. send_chunks-Bounded _ _ _ (heard_response body response s) next h)

  pub start_response_stream-Bounded :
      (s : HttpStream C) (next : HttpStream C → Generator C)
      → Fits dropped credit (s.client_state) (s.server_state) (s.passthrough)
      → Next dropped credit (s.client_state) stream_response_body (s.passthrough) next
      → Bounded dropped credit (start_response_stream s next)
  unfolding start_response_stream
  start_response_stream-Bounded s next rests h =
      with_response-Bounded s _ rests (λ response sent again. h _ refl refl refl)

  pub replay_request_data-Bounded :
      (body : Bytes) (s : HttpStream C) (next : HttpStream C → Generator C)
      → Next dropped credit (s.client_state) (s.server_state) (s.passthrough) next
      → Bounded dropped credit (replay_request_data body s next)
  unfolding replay_request_data stream_request_data
  replay_request_data-Bounded body s next h =
      elim (Bool-cases (is_streaming_request (s.client_state))) [
        | inl e ↦
            rw (e, replay_request_data) (send_chunks-Bounded _ _ _ (heard_request body s) next h)
        | inr e ↦ rw (e, replay_request_data) (h s refl refl refl)
      ]

module _ {C : Type 0} where
  pub start_request_stream-Bounded :
      (s : HttpStream C) (next : HttpStream C → Generator C)
      → Fits false true (s.client_state) (s.server_state) (s.passthrough)
      → Next false false errored errored (s.passthrough) next
      → ((s : HttpStream C) → Bounded true false (next s))
      → Next false true stream_request_body (s.server_state) (s.passthrough) next
      → Bounded false true (start_request_stream s next)
  unfolding start_request_stream
  start_request_stream-Bounded s next rests killed gone lives = by_response (s.flow.response)
    where
      go : Bool → HttpStream C → Generator C
      go ok s =
          if ok
          then send (request_headers (s.flow.request) false none) server s
              (λ s. tell log s (λ s. next (client_to stream_request_body s)))
          else next (client_to errored s)

      by_response :
          (response : Option Response)
          → Bounded false true
              (elim response [ some response ↦ raise s | none ↦ make_server_connection s go ])
      by_response (some response) = λ sent. rests
      by_response none =
          make_server_connection-Bounded s go rests (λ s a b c. killed _ refl b c) (λ s. gone _)
            (λ s a b c sent again. lives _ refl b c)
