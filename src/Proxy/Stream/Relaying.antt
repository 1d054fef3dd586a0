-- ===== src/Proxy/Stream/Relaying.antt =====
-- How a streamed body is passed on.
use middle_man.Base.{
  map_append, ◌≡◌, refl, sym, ap, ◌∙◌, false, none, some, List, [], ◌∷◌, ◌++◌, map,
}
use middle_man.Http.Text.{Bytes}
use middle_man.Proxy.Layer.{
  goes_on, idle, stop, Layer, Command, after, process, handle_event, handle_events, is_blocking,
}
use middle_man.Proxy.Layer.Reference.{at}
use middle_man.Proxy.Messages.{
  Streaming, Response, Side, client, server, request_data, response_data, HttpEvent,
}
use middle_man.Proxy.Stream.{
  stream_request_body, stream_response_body, HttpCommand, send_http, Reply, World, HttpStream,
  count_made,
}
use middle_man.Proxy.Stream.Bodies.{
  chunks_of, called, send_chunks, stream_request_data, stream_response_data,
}
use middle_man.Proxy.Stream.Passed.{
  passed, given, all_chunks, all_called, all_chunks-passed, all_called-given,
}
use middle_man.Proxy.Stream.Handlers.{on_stream_request, on_stream_response, on_server}
use middle_man.Proxy.Stream.Requests.{Input, _handle_event, on_event, on_client}
use middle_man.Proxy.Stream.Cutting.{comes}

module _ {C : Type 0} where
  -- the state behind as many commands
  abbrev pub count_sends : List Bytes → HttpStream C → HttpStream C
  count_sends [] s = s
  count_sends (c ∷ chunks) s = count_sends chunks (count_made s)

  abbrev sends : (Bytes → HttpEvent) → Side → List Bytes → HttpStream C → List (Command HttpCommand)
  sends event side [] s = []
  sends event side (c ∷ chunks) s =
      record { id = s.made; blocking = goes_on; asks = send_http (event c) side }
      ∷ sends event side chunks (count_made s)

  process-send_chunks :
      (event : Bytes → HttpEvent) (side : Side) (chunks : List Bytes) (s : HttpStream C)
      → process (send_chunks event side chunks s (λ s. stop s))
        ≡ (sends event side chunks s, idle (count_sends chunks s))
  unfolding process send_chunks is_blocking
  process-send_chunks event side [] s = refl
  process-send_chunks event side (c ∷ chunks) s =
      ap (after (record { id = s.made; blocking = goes_on; asks = send_http (event c) side } ∷ []))
        (process-send_chunks event side chunks (count_made s))

  asks-sends :
      (event : Bytes → HttpEvent) (side : Side) (chunks : List Bytes) (s : HttpStream C)
      → map (λ command. command.asks) (sends event side chunks s)
        ≡ map (λ c. send_http (event c) side) chunks
  asks-sends event side [] s = refl
  asks-sends event side (c ∷ chunks) s =
      ap (λ l. send_http (event c) side ∷ l) (asks-sends event side chunks (count_made s))

  -- a stream at rest that streams the body of a request, or of a response
  abbrev pub streaming : Streaming → HttpStream C → HttpStream C
  streaming stream s = record s {
    client_state = stream_request_body;
    passthrough = false;
    flow = record s.flow { request = record s.flow.request { stream = stream } };
    peeked = none;
  }

  abbrev pub streaming_response : Streaming → Response → HttpStream C → HttpStream C
  streaming_response stream response s = record s {
    server_state = stream_response_body;
    passthrough = false;
    flow = record s.flow { response = some (record response { stream = stream }) };
    peeked = none;
  }

-- the commands, without their identities, and the layer behind them
abbrev pub told : {A : Type 0} → List (Command HttpCommand) × A → List HttpCommand × A
told run = (map (λ command. command.asks) (run.0), run.1)

told-after :
    {A : Type 0} (commands : List (Command HttpCommand)) (run : List (Command HttpCommand) × A)
    → told (after commands run)
      ≡ (map (λ command. command.asks) commands ++ (told run).0, (told run).1)
told-after commands run =
    ap (λ l. (l, run.1)) (map_append (λ command. command.asks) commands (run.0))

-- a stream whose state passes each piece on
module _ {C : Type 0} (world : World C) (piece_of : Bytes → HttpEvent) (side : Side)
    (state : Streaming → HttpStream C → HttpStream C)
    (counted : (stream : Streaming) (s : HttpStream C)
      → count_made (state stream s) ≡ state stream (count_made s))
    (step : (stream : Streaming) (piece : Bytes) (s : HttpStream C)
      → handle_event (_handle_event world) (comes (piece_of piece)) (at (idle (state stream s)) [])
        ≡ (
          sends piece_of side (chunks_of stream piece) (state (called stream piece) s),
          at (idle (count_sends (chunks_of stream piece) (state (called stream piece) s))) [],
        )) where
  count_sends-state :
      (stream : Streaming) (chunks : List Bytes) (s : HttpStream C)
      → count_sends chunks (state stream s) ≡ state stream (count_sends chunks s)
  count_sends-state stream [] s = refl
  count_sends-state stream (c ∷ chunks) s =
      ap (count_sends chunks) (counted stream s) ∙ count_sends-state stream chunks (count_made s)

  count_sends-append :
      (xs ys : List Bytes) (s : HttpStream C)
      → count_sends ys (count_sends xs s) ≡ count_sends (xs ++ ys) s
  count_sends-append [] ys s = refl
  count_sends-append (x ∷ xs) ys s = count_sends-append xs ys (count_made s)

  pieces-told :
      (stream : Streaming) (pieces : List Bytes) (s : HttpStream C)
      → told (
          handle_events
            (_handle_event world)
            (map (λ piece. comes (piece_of piece)) pieces)
            (at (idle (state stream s)) []))
        ≡ (
          map (λ c. send_http (piece_of c) side) (all_chunks stream pieces),
          at
              (idle (state (all_called stream pieces) (count_sends (all_chunks stream pieces) s)))
              [],
        )
  unfolding handle_events all_chunks all_called
  pieces-told stream [] s = refl
  pieces-told stream (piece ∷ pieces) s =
      let chunks = chunks_of stream piece in
      let next = called stream piece in
      let rest = all_chunks next pieces in
      let last = all_called next pieces in
      let behind = count_sends chunks s in
      ap (λ r. told (after (r.0) (later (r.1)))) (step stream piece s)
      ∙ ap (λ t. told (after (sends piece_of side chunks (state next s)) (later (at (idle t) []))))
          (count_sends-state next chunks s)
      ∙ told-after (sends piece_of side chunks (state next s))
          (later (at (idle (state next behind)) []))
      ∙ ap
          (λ l. (
            l ++ (told (later (at (idle (state next behind)) []))).0,
            (later (at (idle (state next behind)) [])).1,
          ))
          (asks-sends piece_of side chunks (state next s))
      ∙ ap (λ t. (map (λ c. send_http (piece_of c) side) chunks ++ t.0, t.1))
          (pieces-told next pieces behind)
      ∙ ap (λ l. (l, at (idle (state last (count_sends rest behind))) []))
          (sym (map_append (λ c. send_http (piece_of c) side) chunks rest))
      ∙ ap
          (λ t.
            (map (λ c. send_http (piece_of c) side) (chunks ++ rest), at (idle (state last t)) []))
          (count_sends-append chunks rest s)
    where
      later :
          Layer HttpCommand Input Reply (HttpStream C)
          → List (Command HttpCommand) × Layer HttpCommand Input Reply (HttpStream C)
      later layer =
          handle_events (_handle_event world) (map (λ piece. comes (piece_of piece)) pieces) layer

  pieces-passed :
      (stream : Streaming) (pieces : List Bytes) (s : HttpStream C)
      → told (
          handle_events
            (_handle_event world)
            (map (λ piece. comes (piece_of piece)) pieces)
            (at (idle (state stream s)) []))
        ≡ (
          map (λ c. send_http (piece_of c) side) (passed stream pieces),
          at (idle (state (given stream pieces) (count_sends (passed stream pieces) s))) [],
        )
  pieces-passed stream pieces s =
      pieces-told stream pieces s
      ∙ ap
          (λ l. (
            map (λ c. send_http (piece_of c) side) l,
            at (idle (state (all_called stream pieces) (count_sends l s))) [],
          ))
          (all_chunks-passed stream pieces)
      ∙ ap
          (λ t. (
            map (λ c. send_http (piece_of c) side) (passed stream pieces),
            at (idle (state t (count_sends (passed stream pieces) s))) [],
          ))
          (all_called-given stream pieces)

module _ {C : Type 0} (world : World C) where
  request-step :
      (stream : Streaming) (piece : Bytes) (s : HttpStream C)
      → handle_event
          (_handle_event world)
          (comes (request_data piece))
          (at (idle (streaming stream s)) [])
        ≡ (
          sends request_data server (chunks_of stream piece) (streaming (called stream piece) s),
          at (idle (count_sends (chunks_of stream piece) (streaming (called stream piece) s))) [],
        )
  unfolding handle_event _handle_event on_event on_client on_stream_request stream_request_data
  request-step stream piece s =
      ap (λ r. (r.0, at (r.1) []))
        (process-send_chunks request_data server (chunks_of stream piece)
          (streaming (called stream piece) s))

  response-step :
      (stream : Streaming) (response : Response) (piece : Bytes) (s : HttpStream C)
      → handle_event
          (_handle_event world)
          (comes (response_data piece))
          (at (idle (streaming_response stream response s)) [])
        ≡ (
          sends response_data client
              (chunks_of stream piece)
              (streaming_response (called stream piece) response s),
          at
              (idle (
                count_sends
                  (chunks_of stream piece)
                  (streaming_response (called stream piece) response s)))
              [],
        )
  unfolding handle_event _handle_event on_event on_server on_stream_response stream_response_data
  response-step stream response piece s =
      ap (λ r. (r.0, at (r.1) []))
        (process-send_chunks response_data client (chunks_of stream piece)
          (streaming_response (called stream piece) response s))

  -- A streamed body is passed on as it arrives. While any pieces of it come, the stream yields these pieces
  -- where it has no callback, and otherwise the data of the callback's answers, one answer for each piece
  -- in their order, where each call may depend on the pieces that the callback has been given before. They
  -- go to the server for a request and to the client for a response, and nothing else is yielded; the
  -- stream awaits nothing, queues nothing, and its state stays, apart from the count of its commands and
  -- the pieces that its callback has been given.
  pub handle_events-relay :
      (stream : Streaming) (pieces : List Bytes) (response : Response) (s : HttpStream C)
      → (told (
            handle_events
              (_handle_event world)
              (map (λ piece. comes (request_data piece)) pieces)
              (at (idle (streaming stream s)) []))
          ≡ (
            map (λ c. send_http (request_data c) server) (passed stream pieces),
            at (idle (streaming (given stream pieces) (count_sends (passed stream pieces) s))) [],
          ))
        × (told (
              handle_events
                (_handle_event world)
                (map (λ piece. comes (response_data piece)) pieces)
                (at (idle (streaming_response stream response s)) []))
            ≡ (
              map (λ c. send_http (response_data c) client) (passed stream pieces),
              at
                  (idle (
                    streaming_response
                      (given stream pieces)
                      response
                      (count_sends (passed stream pieces) s)))
                  [],
            ))
  handle_events-relay stream pieces response s = (
    pieces-passed world request_data server (λ stream s. streaming stream s) (λ stream s. refl)
        request-step stream pieces s,
    pieces-passed world response_data client (λ stream s. streaming_response stream response s)
        (λ stream s. refl) (λ stream. response-step stream response) stream pieces s,
  )
