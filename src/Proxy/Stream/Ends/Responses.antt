-- ===== src/Proxy/Stream/Ends/Responses.antt =====
-- The hooks that the states of a stream yield for the events of the server.
use middle_man.Base.{
  [], ◌≡◌, refl, ◌∙◌, ap, Bool, true, false, not, ◌&&◌, ◌++◌, inl, inr, Bool-cases, if◌then◌else◌,
}
use middle_man.Http.Headers.{Fields}
use middle_man.Proxy.Layer.{stop}
use middle_man.Proxy.Messages.{
  Response, HttpEvent, client, response_headers, response_data, response_trailers,
  response_end_of_message,
}
use middle_man.Proxy.Stream.{
  StreamState, wait_for_response_headers, stream_response_body, consume_response_body, errored,
  World, HttpStream, Generator, server_to, count_made, receive, with_response, set_response, hook,
  response_headers_hook,
}
use middle_man.Proxy.Stream.Errors.{check_invalid_response}
use middle_man.Proxy.Stream.Bodies.{
  heard_response, last_chunks, send_chunks, start_response_stream, send_response,
}
use middle_man.Proxy.Stream.Sizes.{check_response_size}
use middle_man.Proxy.Stream.Handlers.{
  is_streamed, after_response_headers, greet_response, on_response_headers, keep_trailers,
  take_response, on_stream_response, on_consume_response, on_server,
}
use middle_man.Proxy.Stream.Ends.{is_early, is_over, Fits, Bounded}
use middle_man.Proxy.Stream.Ends.Errors.{check_killed-ends, check_invalid_response-Bounded}
use middle_man.Proxy.Stream.Ends.Bodies.{
  send_chunks-Bounded, with_response-Bounded, stream_response_data-Bounded,
  start_response_stream-Bounded,
}
use middle_man.Proxy.Stream.Ends.Answers.{send_response-Bounded}
use middle_man.Proxy.Stream.Ends.Sizes.{check_response_size-Bounded}

module _ {C : Type 0} (world : World C) where
  after_response_headers-Bounded :
      (end_stream : Bool) (s : HttpStream C)
      → is_early (s.client_state) ≡ false
      → Bounded false true (after_response_headers world end_stream s)
  unfolding after_response_headers
  after_response_headers-Bounded end_stream s late =
      check_killed-ends s (λ killed s. if killed then stop s else with_response s (go s))
        (λ t a b c. rw (a, b) refl)
        (λ t a b c.
          with_response-Bounded false true t (go t) (rw (a, late) refl)
            (λ response. by_stream t response (ap is_early a ∙ late)))
    where
      go : HttpStream C → Response → Generator C
      go s response =
          if is_streamed (response.stream) && not end_stream
          then start_response_stream s (λ s. stop s)
          else stop (server_to consume_response_body s)

      by_stream :
          (s : HttpStream C) (response : Response)
          → is_early (s.client_state) ≡ false
          → Bounded false true (go s response)
      by_stream s response late =
          elim (Bool-cases (is_streamed (response.stream) && not end_stream)) [
            | inl e ↦ rw (e) (
                start_response_stream-Bounded false true s (λ s. stop s) (rw (late) refl)
                  (λ t a b c. rw (a, late) refl))
            | inr e ↦ rw (e, late) refl
          ]

  greet_response-Bounded :
      (end_stream : Bool) (s : HttpStream C)
      → is_early (s.client_state) ≡ false
      → Bounded false true (greet_response world end_stream s)
  unfolding greet_response
  greet_response-Bounded end_stream s late =
      with_response-Bounded false true s (go s) (rw (late) refl) (λ response.
        check_invalid_response-Bounded world response s (next) (λ t a b c. rw (a, b) refl)
          (λ sent. after_response_headers-Bounded end_stream (receive sent (count_made s)) late))
    where
      next : Bool → HttpStream C → Generator C
      next bad s =
          if bad
          then stop s
          else hook response_headers_hook s (after_response_headers world end_stream)

      go : HttpStream C → Response → Generator C
      go s response = check_invalid_response world response s next

  on_response_headers-Bounded :
      (event : HttpEvent) (s : HttpStream C)
      → is_early (s.client_state) ≡ false
      → Bounded false true (on_response_headers world event s)
  unfolding on_response_headers
  on_response_headers-Bounded (response_headers response end_stream) s late = by_end end_stream
    where
      next : Bool → HttpStream C → Generator C
      next stopped s = if stopped then stop s else greet_response world end_stream s

      by_end :
          (b : Bool)
          → Bounded false true (
              if b
              then greet_response world end_stream (set_response response s)
              else check_response_size world response (set_response response s) next)
      by_end true = greet_response-Bounded end_stream (set_response response s) late
      by_end false =
          check_response_size-Bounded world response (set_response response s) next (rw (late) refl)
            (rw (late) refl) (λ t a b c. rw (a, b) refl)
            (λ t a b c. greet_response-Bounded end_stream t (ap is_early a ∙ late))
            (λ t a b c. greet_response-Bounded end_stream t (ap is_early a ∙ late))
  on_response_headers-Bounded _ s late = λ sent. rw (late) refl

  keep_trailers-Bounded :
      (trailers : Fields) (s : HttpStream C)
      → is_early (s.client_state) ≡ false
      → Bounded false true (keep_trailers world trailers s)
  keep_trailers-Bounded trailers s late =
      with_response-Bounded false true s _ (rw (late) refl) (λ response. rw (late) refl)

  on_stream_response-Bounded :
      (event : HttpEvent) (s : HttpStream C)
      → is_early (s.client_state) ≡ false
      → Bounded false true (on_stream_response world event s)
  unfolding on_stream_response
  on_stream_response-Bounded (response_data body) s late =
      stream_response_data-Bounded false true body s (λ s. stop s) (rw (late) refl)
        (λ t a b c. rw (a, late) refl)
  on_stream_response-Bounded (response_trailers trailers) s late =
      keep_trailers-Bounded trailers s late
  on_stream_response-Bounded response_end_of_message s late =
      with_response-Bounded false true s
        (λ response.
          send_chunks response_data client (last_chunks (response.stream))
            (heard_response [] response s) (send_response world true))
        (rw (late) refl)
        (λ response.
          send_chunks-Bounded false true response_data client (last_chunks (response.stream))
            (heard_response [] response s) (send_response world true)
            (λ t a b c. send_response-Bounded world true t (ap is_early a ∙ late)))
  on_stream_response-Bounded _ s late = λ sent. rw (late) refl

  on_consume_response-Bounded :
      (event : HttpEvent) (s : HttpStream C)
      → is_early (s.client_state) ≡ false
      → Bounded false true (on_consume_response world event s)
  unfolding on_consume_response
  on_consume_response-Bounded (response_data body) s late =
      with_response-Bounded false true grown
        (λ response. check_response_size world response grown (λ stopped s. stop s))
        (rw (late) refl)
        (λ response.
          check_response_size-Bounded world response grown (λ stopped s. stop s) (rw (late) refl)
            (rw (late) refl) (λ t a b c. rw (a, b) refl) (λ t a b c. rw (a, late) refl)
            (λ t a b c. rw (a, late) refl))
    where
      grown : HttpStream C
      grown = record s { response_body_buf = s.response_body_buf ++ body }
  on_consume_response-Bounded (response_trailers trailers) s late =
      keep_trailers-Bounded trailers s late
  on_consume_response-Bounded response_end_of_message s late =
      with_response-Bounded false true s
        (λ response. send_response world false (take_response world response s)) (rw (late) refl)
        (λ response. send_response-Bounded world false (take_response world response s) late)
  on_consume_response-Bounded _ s late = λ sent. rw (late) refl

  pub on_server-Bounded :
      (credit : Bool) (state : StreamState) (event : HttpEvent) (s : HttpStream C)
      → is_early (s.client_state) ≡ false
      → credit ≡ not (is_over state)
      → Fits false credit (s.client_state) (s.server_state) (s.passthrough)
      → Bounded false credit (on_server world state event s)
  unfolding on_server
  on_server-Bounded credit wait_for_response_headers event s late e rests =
      rw (e) (on_response_headers-Bounded event s late)
  on_server-Bounded credit stream_response_body event s late e rests =
      rw (e) (on_stream_response-Bounded event s late)
  on_server-Bounded credit consume_response_body event s late e rests =
      rw (e) (on_consume_response-Bounded event s late)
  on_server-Bounded credit errored event s late e rests = rests
  on_server-Bounded credit _ event s late e rests = λ sent. rests
