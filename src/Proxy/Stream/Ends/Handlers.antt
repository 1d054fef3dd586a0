-- ===== src/Proxy/Stream/Ends/Handlers.antt =====
-- The hooks that the states of a stream yield for the body of the request.
use middle_man.Base.{
  [], ◌≡◌, refl, ◌∙◌, ap, Bool, true, false, Option, none, some, ◌++◌, inl, inr, Bool-cases,
  if◌then◌else◌,
}
use middle_man.Proxy.Layer.{stop}
use middle_man.Proxy.Messages.{
  Response, HttpEvent, server, request_data, request_trailers, request_end_of_message,
}
use middle_man.Proxy.Stream.{
  stream_request_body, consume_request_body, done, World, HttpStream, Generator, client_to,
  count_made, receive, is_done,
}
use middle_man.Proxy.Stream.Bodies.{
  heard_request, last_chunks, send, flow_done, send_response, stream_request_data,
}
use middle_man.Proxy.Stream.Handlers.{
  request_on, request_by, send_request, on_stream_request, after_request, take_body,
  on_consume_request,
}
use middle_man.Proxy.Stream.Ends.{is_early, is_over, Fits, Bounded, Next, Bounded-credit}
use middle_man.Proxy.Stream.Ends.Errors.{check_killed-ends, make_server_connection-Bounded}
use middle_man.Proxy.Stream.Ends.Bodies.{
  send_chunks-Bounded, send_trailers-Bounded, send_content-Bounded,
}
use middle_man.Proxy.Stream.Ends.Answers.{flow_done-Bounded, send_response-Bounded}
use middle_man.Proxy.Stream.Ends.Sizes.{check_request_size-stops}

module _ {C : Type 0} where
  send_request-Bounded :
      (s : HttpStream C) (next : HttpStream C → Generator C)
      → Next false true (s.client_state) (s.server_state) (s.passthrough) next
      → Bounded false true (send_request s next)
  send_request-Bounded s next h = λ sent.
      send_content-Bounded false true request_data (s.flow.request.content) server (count_made s) _
        (λ t a b c.
          send_trailers-Bounded false true request_trailers (s.flow.request.trailers) server t next
            (λ u i j k. h u (i ∙ a) (j ∙ b) (k ∙ c)))

module _ {C : Type 0} (world : World C) where
  end_request-Bounded :
      (credit : Bool) (s : HttpStream C)
      → s.client_state ≡ done
      → Fits false credit (s.client_state) (s.server_state) (s.passthrough)
      → Bounded false credit (if is_done (s.server_state) then flow_done world s else stop s)
  end_request-Bounded credit s e rests = elim (Bool-cases (is_done (s.server_state))) [
    | inl f ↦ rw (f) (by_credit credit (flow_done-Bounded world s (ap is_early e) (rw (f) refl)))
    | inr f ↦ rw (f) rests
  ]
    where
      by_credit :
          (credit : Bool)
          → Bounded false false (flow_done world s)
          → Bounded false credit (flow_done world s)
      by_credit true h = Bounded-credit false (flow_done world s) h
      by_credit false h = h

  pub on_stream_request-Bounded :
      (credit : Bool) (event : HttpEvent) (s : HttpStream C)
      → s.client_state ≡ stream_request_body
      → Fits false credit stream_request_body (s.server_state) (s.passthrough)
      → Bounded false credit (on_stream_request world event s)
  unfolding on_stream_request stream_request_data
  on_stream_request-Bounded credit (request_data body) s e rests =
      send_chunks-Bounded false credit request_data server _ (heard_request body s) (λ s. stop s)
        (λ t a b c. rw (a ∙ e, b, c) rests)
  on_stream_request-Bounded credit (request_trailers trailers) s e rests = rw (e) rests
  on_stream_request-Bounded credit request_end_of_message s e rests =
      send_chunks-Bounded false credit request_data server (last_chunks (s.flow.request.stream))
        (heard_request [] s) _
        (λ t a b c sent.
          send_trailers-Bounded false credit request_trailers _ server
            (client_to done (receive sent (count_made t)))
            (λ s.
              send request_end_of_message server s
                (λ s. if is_done (s.server_state) then flow_done world s else stop s))
            (λ u i j k sent.
              end_request-Bounded credit (count_made u) i (rw (i, j ∙ b, k ∙ c) rests)))
  on_stream_request-Bounded credit _ s e rests = λ sent. rw (e) rests

  request_by-Bounded :
      (s : HttpStream C) (response : Option Response)
      → s.client_state ≡ done
      → Bounded false true (request_by world response s)
  unfolding request_by
  request_by-Bounded s (some response) e = λ sent.
      check_killed-ends (receive sent (count_made s))
        (λ killed s. if killed then stop s else send_response world false s)
        (λ t a b c. rw (a, b) refl)
        (λ t a b c. send_response-Bounded world false t (ap is_early (a ∙ e)))
  request_by-Bounded s none e =
      make_server_connection-Bounded s (request_on world) (rw (e) refl) (λ t a b c. rw (a, b) refl)
        (λ t. refl)
        (λ t a b c.
          send_request-Bounded t (λ s. send request_end_of_message server s (λ s. stop s))
            (λ u i j k sent. rw (i ∙ a ∙ e) refl))

  pub after_request-Bounded :
      (s : HttpStream C) → s.client_state ≡ done → Bounded false true (after_request world s)
  unfolding after_request
  after_request-Bounded s e =
      check_killed-ends s
        (λ killed s. if killed then stop s else request_by world (s.flow.response) s)
        (λ t a b c. rw (a, b) refl) (λ t a b c. request_by-Bounded t (t.flow.response) (a ∙ e))

  pub on_consume_request-Bounded :
      (event : HttpEvent) (s : HttpStream C)
      → s.client_state ≡ consume_request_body
      → is_over (s.server_state) ≡ false
      → Bounded false true (on_consume_request world event s)
  unfolding on_consume_request
  on_consume_request-Bounded (request_data body) s e active =
      check_request_size-stops world (record s { request_body_buf = s.request_body_buf ++ body })
        (rw (e, active) refl)
  on_consume_request-Bounded (request_trailers trailers) s e active = rw (e, active) refl
  on_consume_request-Bounded request_end_of_message s e active = λ sent.
      after_request-Bounded (receive sent (count_made (client_to done (take_body world s)))) refl
  on_consume_request-Bounded _ s e active = λ sent. rw (e, active) refl
