-- ===== src/Proxy/Stream/Ends/Events.antt =====
-- The hooks of a whole event.
use mathlib.Core.Path.{subst}
use middle_man.Base.{
  ◌≡◌, refl, sym, Bool, true, false, not, ◌&&◌, ◌||◌, ◌==◌, Option, none, some, List, [], ◌∷◌,
  if◌then◌else◌, arith,
}
use middle_man.Http.Text.{Bytes}
use middle_man.Proxy.Layer.{stop, other}
use middle_man.Proxy.Messages.{
  Response, HttpEvent, client, server, start, request_headers, request_data, request_trailers,
  request_end_of_message, request_protocol_error, response_protocol_error,
}
use middle_man.Proxy.Stream.{
  StreamState, wait_for_request_headers, stream_request_body, consume_request_body, errored, World,
  HttpStream, Generator, ChildCommand, send_data, close_connection, other_command, count_made,
  raise, is_errored,
}
use middle_man.Proxy.Stream.Errors.{of_request, of_response, needs_error_hook}
use middle_man.Proxy.Stream.Requests.{on_client, on_event, Input, _handle_event}
use middle_man.Proxy.Stream.Passthrough.{tell_parent, on_passthrough, child_event}
use middle_man.Proxy.Stream.Ends.{is_early, is_over, Fits, Bounded}
use middle_man.Proxy.Stream.Ends.Errors.{handle_protocol_error-Bounded}
use middle_man.Proxy.Stream.Ends.Bodies.{with_response-Bounded}
use middle_man.Proxy.Stream.Ends.Answers.{pass-Fits}
use middle_man.Proxy.Stream.Ends.Handlers.{on_stream_request-Bounded, on_consume_request-Bounded}
use middle_man.Proxy.Stream.Ends.Responses.{on_server-Bounded}
use middle_man.Proxy.Stream.Ends.Requests.{on_request_headers-Bounded}

-- nothing of a body is there before the headers
abbrev is_unread : StreamState → Bytes → Bool
is_unread wait_for_request_headers (c ∷ body) = false
is_unread _ _ = true

unread-empty : (body : Bytes) → is_unread wait_for_request_headers body ≡ true → body ≡ []
unread-empty [] h = refl
unread-empty (c ∷ body) h = ground (arith, h)

-- for what is early, failed, and over
abbrev awaits : Bool → Bool → Bool → Bool
awaits early failed over = not early && not (failed && not over)

-- What an event may meet, of the states of the client and the server and the body that is buffered: the
-- stream is started while nothing has ended it, its headers come before any of its body, and the server
-- answers a request that is sent, and that has not failed alone.
unfoldable pub is_expected : HttpEvent → StreamState → StreamState → Bytes → Bool
is_expected start client_state server_state body =
    not (is_errored client_state || is_over server_state)
is_expected (request_headers request end_stream replay) client_state server_state body =
    is_unread client_state body
is_expected (request_data more) client_state server_state body = is_unread client_state body
is_expected (request_trailers trailers) client_state server_state body = is_unread client_state body
is_expected request_end_of_message client_state server_state body = is_unread client_state body
is_expected (request_protocol_error message code) client_state server_state body = true
is_expected (response_protocol_error message code) client_state server_state body = true
is_expected _ client_state server_state body =
    awaits (is_early client_state) (is_errored client_state) (is_over server_state)

early-Fits :
    (credit over : Bool)
    → ((not over && (credit || over || false)) || false) ≡ true
    → (credit ≡ true) × (over ≡ false)
early-Fits true true h = (refl, sym h)
early-Fits true false h = (refl, refl)
early-Fits false true h = (h, sym h)
early-Fits false false h = (h, refl)

awaits-late :
    (early failed over : Bool)
    → awaits early failed over ≡ true
    → (early ≡ false) × (not (failed || over) ≡ not over)
awaits-late true true true h = (sym h, refl)
awaits-late true true false h = (sym h, h)
awaits-late true false over h = (sym h, refl)
awaits-late false true true h = (refl, refl)
awaits-late false true false h = (refl, h)
awaits-late false false over h = (refl, refl)

start-fits :
    (failed over passthrough : Bool)
    → not (failed || over) ≡ true
    → ((not over && (not (failed || over) || over || false)) || passthrough) ≡ true
start-fits true over passthrough h = ground (arith, h)
start-fits false true passthrough h = ground (arith, h)
start-fits false false passthrough h = refl

module _ {C : Type 0} (world : World C) where
  tell_parent-Bounded :
      (switched credit : Bool) (commands : List ChildCommand) (s : HttpStream C)
      → s.passthrough ≡ true
      → Bounded false credit (tell_parent world switched commands s)
  unfolding tell_parent
  tell_parent-Bounded switched credit [] s e = pass-Fits credit s e
  tell_parent-Bounded true credit (send_data client body ∷ commands) s e =
      λ sent. tell_parent-Bounded true credit commands (count_made s) e
  tell_parent-Bounded true credit (send_data server body ∷ commands) s e =
      λ sent. tell_parent-Bounded true credit commands (count_made s) e
  tell_parent-Bounded true credit (close_connection client half ∷ commands) s e =
      λ sent. tell_parent-Bounded true credit commands (count_made s) e
  tell_parent-Bounded true credit (close_connection server half ∷ commands) s e =
      λ sent. tell_parent-Bounded true credit commands (count_made s) e
  tell_parent-Bounded true credit (other_command n ∷ commands) s e =
      λ sent. tell_parent-Bounded true credit commands (count_made s) e
  tell_parent-Bounded false credit (send_data client body ∷ commands) s e =
      λ sent. tell_parent-Bounded false credit commands (count_made s) e
  tell_parent-Bounded false credit (send_data server body ∷ commands) s e =
      λ sent. tell_parent-Bounded false credit commands (count_made s) e
  tell_parent-Bounded false credit (close_connection client half ∷ commands) s e =
      λ sent. tell_parent-Bounded false credit commands (count_made s) e
  tell_parent-Bounded false credit (close_connection server half ∷ commands) s e =
      λ sent. tell_parent-Bounded false credit commands (count_made s) e
  tell_parent-Bounded false credit (other_command n ∷ commands) s e =
      λ sent. tell_parent-Bounded false credit commands (count_made s) e

  on_passthrough-Bounded :
      (credit : Bool) (event : HttpEvent) (s : HttpStream C)
      → s.passthrough ≡ true
      → Bounded false credit (on_passthrough world event s)
  unfolding on_passthrough
  on_passthrough-Bounded credit event s e =
      with_response-Bounded false credit s (λ response. go response (s.child_layer))
        (pass-Fits credit s e) (λ response. by_child response (s.child_layer))
    where
      go : Response → Option C → Generator C
      go response child = elim child [
        | none ↦ raise s
        | some child ↦
            tell_parent world (response.status_code == 101)
              ((world.child_step (child_event world event) child).0)
              (record s {
                child_layer = some ((world.child_step (child_event world event) child).1);
              })
      ]

      by_child : (response : Response) (child : Option C) → Bounded false credit (go response child)
      by_child response none = λ sent. pass-Fits credit s e
      by_child response (some child) =
          tell_parent-Bounded (response.status_code == 101) credit _ _ e

  on_client-Bounded :
      (credit : Bool) (state : StreamState) (event : HttpEvent) (s : HttpStream C)
      → s.client_state ≡ state
      → s.passthrough ≡ false
      → Fits false credit state (s.server_state) false
      → is_unread state (s.request_body_buf) ≡ true
      → Bounded false credit (on_client world state event s)
  unfolding on_client
  on_client-Bounded credit wait_for_request_headers event s e off rests unread =
      let early = early-Fits credit (is_over (s.server_state)) rests in
      rw (early.0) (
        on_request_headers-Bounded world event s e (early.1)
          (unread-empty (s.request_body_buf) unread))
  on_client-Bounded credit stream_request_body event s e off rests unread =
      on_stream_request-Bounded world credit event s e (rw (off) rests)
  on_client-Bounded credit consume_request_body event s e off rests unread =
      let early = early-Fits credit (is_over (s.server_state)) rests in
      rw (early.0) (on_consume_request-Bounded world event s e (early.1))
  on_client-Bounded credit errored event s e off rests unread = rw (e, off) rests
  on_client-Bounded credit _ event s e off rests unread = λ sent. rw (e, off) rests

  on_event-Bounded :
      (event : HttpEvent) (s : HttpStream C)
      → s.passthrough ≡ false
      → Fits false (needs_error_hook s) (s.client_state) (s.server_state) false
      → is_expected event (s.client_state) (s.server_state) (s.request_body_buf) ≡ true
      → Bounded false (needs_error_hook s) (on_event world event s)
  unfolding on_event is_expected needs_error_hook
  on_event-Bounded start s off rests h =
      start-fits (is_errored (s.client_state)) (is_over (s.server_state)) (s.passthrough) h
  on_event-Bounded (request_protocol_error message code) s off rests h =
      handle_protocol_error-Bounded false (of_request message code) s (λ s. stop s)
        (λ t a b c. rw (a, b) refl) (λ t. refl)
  on_event-Bounded (response_protocol_error message code) s off rests h =
      handle_protocol_error-Bounded false (of_response message code) s (λ s. stop s)
        (λ t a b c. rw (a, b) refl) (λ t. refl)
  on_event-Bounded (request_headers request end_stream replay) s off rests h =
      on_client-Bounded (needs_error_hook s) (s.client_state)
        (request_headers request end_stream replay) s refl off rests h
  on_event-Bounded (request_data body) s off rests h =
      on_client-Bounded (needs_error_hook s) (s.client_state) (request_data body) s refl off rests h
  on_event-Bounded (request_trailers trailers) s off rests h =
      on_client-Bounded (needs_error_hook s) (s.client_state) (request_trailers trailers) s refl off
        rests h
  on_event-Bounded request_end_of_message s off rests h =
      on_client-Bounded (needs_error_hook s) (s.client_state) request_end_of_message s refl off
        rests h
  on_event-Bounded event s off rests h =
      let late =
        awaits-late (is_early (s.client_state)) (is_errored (s.client_state))
          (is_over (s.server_state)) h in
      on_server-Bounded world (needs_error_hook s) (s.server_state) event s (late.0) (late.1)
        (rw (off) rests)

  -- An event of a stream yields a hook that ends the flow at most once, and only where the flow has not
  -- ended; the states it leaves fit again.
  pub handle_event-Bounded :
      (input : Input) (s : HttpStream C)
      → Fits false (needs_error_hook s) (s.client_state) (s.server_state) (s.passthrough)
      → is_expected (input.event) (s.client_state) (s.server_state) (s.request_body_buf) ≡ true
      → Bounded false
          (not (s.passthrough) && needs_error_hook s)
          (_handle_event world (other input) s)
  unfolding _handle_event needs_error_hook
  handle_event-Bounded input s rests h = by_pass (s.passthrough) refl
    where
      by_pass :
          (b : Bool)
          → s.passthrough ≡ b
          → Bounded false (not b && needs_error_hook s) (
              if b
              then on_passthrough world (input.event) (record s { peeked = input.queued })
              else on_event world (input.event) (record s { peeked = input.queued }))
      by_pass true e =
          on_passthrough-Bounded false (input.event) (record s { peeked = input.queued }) e
      by_pass false e =
          on_event-Bounded (input.event) (record s { peeked = input.queued }) e
            (subst (Fits false (needs_error_hook s) (s.client_state) (s.server_state)) e rests) h
