-- ===== src/Proxy/Stream/Cutting.antt =====
-- How a body is cut into pieces while it is buffered.
use middle_man.Base.{
  ◌≡◌, refl, sym, ap, ◌∙◌, false, none, some, List, [], ◌∷◌, ◌++◌, map, append_assoc, append-nil,
}
use middle_man.Http.Text.{Bytes}
use middle_man.Proxy.Layer.{Event, other, idle, after, handle_event, handle_events}
use middle_man.Proxy.Layer.Reference.{at}
use middle_man.Proxy.Messages.{Response, request_data, response_data, HttpEvent}
use middle_man.Proxy.Stream.{consume_request_body, consume_response_body, Reply, World, HttpStream}
use middle_man.Proxy.Stream.Sizes.{check_request_size, check_response_size}
use middle_man.Proxy.Stream.Handlers.{on_consume_request, on_consume_response, on_server}
use middle_man.Proxy.Stream.Requests.{Input, _handle_event, on_event, on_client}

abbrev pub join : List Bytes → Bytes
join [] = []
join (piece ∷ pieces) = piece ++ join pieces

abbrev pub comes : HttpEvent → Event Input Reply
comes event = other (record { event = event; queued = none })

module _ {C : Type 0} where
  -- a stream at rest that buffers the body of a request
  abbrev pub buffering : Bytes → HttpStream C → HttpStream C
  buffering body s = record s {
    client_state = consume_request_body;
    passthrough = false;
    request_body_buf = body;
    peeked = none;
  }

  -- one that buffers the body of a response
  abbrev pub answering : Response → Bytes → HttpStream C → HttpStream C
  answering response body s = record s {
    server_state = consume_response_body;
    passthrough = false;
    flow = record s.flow { response = some response };
    response_body_buf = body;
    peeked = none;
  }

-- a stream whose state buffers each piece
module _ {C : Type 0} (world : World C) (piece_of : Bytes → HttpEvent)
    (state : Bytes → HttpStream C)
    (step : (piece body : Bytes)
      → handle_event (_handle_event world) (comes (piece_of piece)) (at (idle (state body)) [])
        ≡ ([], at (idle (state (body ++ piece))) [])) where
  pieces-Buffered :
      (pieces : List Bytes) (body : Bytes) (rest : List (Event Input Reply))
      → handle_events
          (_handle_event world)
          (map (λ piece. comes (piece_of piece)) pieces ++ rest)
          (at (idle (state body)) [])
        ≡ handle_events (_handle_event world) rest (at (idle (state (body ++ join pieces))) [])
  unfolding handle_events
  pieces-Buffered [] body rest =
      ap (λ b. handle_events (_handle_event world) rest (at (idle (state b)) []))
        (sym (append-nil body))
  pieces-Buffered (piece ∷ pieces) body rest =
      ap
        (λ run. after (run.0) (
          handle_events (_handle_event world) (map (λ piece. comes (piece_of piece)) pieces ++ rest)
            (run.1)))
        (step piece body)
      ∙ pieces-Buffered pieces (body ++ piece) rest
      ∙ ap (λ b. handle_events (_handle_event world) rest (at (idle (state b)) []))
          (append_assoc body piece (join pieces))

  pieces-join :
      (pieces : List Bytes) (body : Bytes) (rest : List (Event Input Reply))
      → handle_events
          (_handle_event world)
          (map (λ piece. comes (piece_of piece)) pieces ++ rest)
          (at (idle (state body)) [])
        ≡ handle_events
            (_handle_event world)
            (comes (piece_of (join pieces)) ∷ rest)
            (at (idle (state body)) [])
  unfolding handle_events
  pieces-join pieces body rest =
      pieces-Buffered pieces body rest
      ∙ ap (λ run. after (run.0) (handle_events (_handle_event world) rest (run.1)))
          (sym (step (join pieces) body))

module _ {C : Type 0} (world : World C) (unlimited : world.stream_large_bodies ≡ none)
    (unbounded : world.body_size_limit ≡ none) where
  request-Buffered :
      (s : HttpStream C) (piece body : Bytes)
      → handle_event
          (_handle_event world)
          (comes (request_data piece))
          (at (idle (buffering body s)) [])
        ≡ ([], at (idle (buffering (body ++ piece) s)) [])
  unfolding handle_event _handle_event on_event on_client on_consume_request check_request_size
  request-Buffered s piece body = rw (unlimited, unbounded) refl

  response-Buffered :
      (response : Response) (s : HttpStream C) (piece body : Bytes)
      → handle_event
          (_handle_event world)
          (comes (response_data piece))
          (at (idle (answering response body s)) [])
        ≡ ([], at (idle (answering response (body ++ piece) s)) [])
  unfolding handle_event _handle_event on_event on_server on_consume_response check_response_size
  response-Buffered response s piece body = rw (unlimited, unbounded) refl

  -- Where neither option limits bodies, a body that is buffered may be cut into any pieces: for any
  -- events that follow, the layer yields the same commands and ends in the same state as if the body
  -- had come at once, for requests and for responses.
  pub handle_events-cut :
      (pieces : List Bytes) (body : Bytes) (response : Response) (s : HttpStream C)
      (rest : List (Event Input Reply))
      → (handle_events
            (_handle_event world)
            (map (λ piece. comes (request_data piece)) pieces ++ rest)
            (at (idle (buffering body s)) [])
          ≡ handle_events
              (_handle_event world)
              (comes (request_data (join pieces)) ∷ rest)
              (at (idle (buffering body s)) []))
        × (handle_events
              (_handle_event world)
              (map (λ piece. comes (response_data piece)) pieces ++ rest)
              (at (idle (answering response body s)) [])
            ≡ handle_events
                (_handle_event world)
                (comes (response_data (join pieces)) ∷ rest)
                (at (idle (answering response body s)) []))
  handle_events-cut pieces body response s rest = (
    pieces-join world request_data (λ body. buffering body s) (request-Buffered s) pieces body rest,
    pieces-join world response_data (λ body. answering response body s)
        (response-Buffered response s) pieces body rest,
  )
