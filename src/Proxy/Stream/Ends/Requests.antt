-- ===== src/Proxy/Stream/Ends/Requests.antt =====
-- The hooks of a stream at the headers of a request.
use middle_man.Base.{
  ◌≡◌, refl, ◌∙◌, ap, Bool, true, false, not, ◌&&◌, Option, none, some, [], ◌∷◌, inl, inr,
  Bool-cases, if◌then◌else◌, ℕ,
}
use middle_man.Http.Text.{Bytes, codes, bytes_eq}
use middle_man.Net.Authority.{parse_authority}
use middle_man.Proxy.Layer.{stop}
use middle_man.Proxy.Messages.{
  HttpMode, regular, transparent, upstream, HttpEvent, client, request_headers, get_or, host_header,
  response_protocol_error, destination_unknown,
}
use middle_man.Proxy.Stream.{
  wait_for_request_headers, wait_for_response_headers, consume_request_body, errored, World,
  HttpStream, Generator, client_to, server_to, count_made, receive,
}
use middle_man.Proxy.Stream.Bodies.{send, start_request_stream}
use middle_man.Proxy.Stream.Sizes.{check_request_size}
use middle_man.Proxy.Stream.Handlers.{is_streamed}
use middle_man.Proxy.Stream.Requests.{
  set_target, target_of_header, target_of_server, find_by, find_target, drop_authority,
  host_of_server, expects_100, drop_expect, rewrite_host, continue_100, after_headers,
  greet_request, accept_request, new_flow, on_request_headers,
}
use middle_man.Proxy.Stream.Ends.{is_over, Fits, Bounded, Next}
use middle_man.Proxy.Stream.Ends.Errors.{check_killed-ends, check_invalid_request-Bounded}
use middle_man.Proxy.Stream.Ends.Bodies.{start_request_stream-Bounded}
use middle_man.Proxy.Stream.Ends.Connect.{handle_connect-Bounded}
use middle_man.Proxy.Stream.Ends.Sizes.{errored-Fits, check_request_size-Bounded}

module _ {C : Type 0} (world : World C) where
  -- what follows for any stream in the states of `s` that has buffered as much
  abbrev NextWith : HttpStream C → (HttpStream C → Generator C) → Type 0
  NextWith s next =
      (t : HttpStream C)
      → t.client_state ≡ s.client_state
      → t.server_state ≡ s.server_state
      → t.passthrough ≡ s.passthrough
      → t.request_body_buf ≡ s.request_body_buf
      → Bounded false true (next t)

  target_of_header-Bounded :
      (s : HttpStream C) (next : HttpStream C → Generator C)
      → NextWith s next
      → Bounded false true (target_of_header world s next)
  unfolding target_of_header
  target_of_header-Bounded s next h =
      by_target
        (parse_authority (world.codec) (get_or [] (host_header (world.native) (s.flow.request))))
    where
      by_target :
          (target : Option (Bytes × Option ℕ))
          → Bounded false true (elim target [
            | none ↦
                send
                  (response_protocol_error
                    (codes "HTTP request has no host header, destination unknown.")
                    destination_unknown)
                  client
                  s
                  (λ s. stop (client_to errored s))
            | some target ↦ next (
                set_target world
                  (target.0)
                  (get_or (if world.client_tls then 443 else 80) (target.1))
                  (world.client_tls)
                  s)
          ])
      by_target none = λ sent. refl
      by_target (some target) = h _ refl refl refl refl

  find_by-Bounded :
      (mode : HttpMode) (host : Bytes) (s : HttpStream C) (next : HttpStream C → Generator C)
      → Fits false true (s.client_state) (s.server_state) (s.passthrough)
      → NextWith s next
      → Bounded false true (find_by world mode host s next)
  unfolding find_by
  find_by-Bounded transparent host s next rests h = by_address (s.context_server.address)
    where
      by_address :
          (address : Option (Bytes × ℕ))
          → Bounded false true (target_of_server world address s next)
      by_address none = λ sent. rests
      by_address (some address) = h _ refl refl refl refl
  find_by-Bounded regular [] s next rests h = target_of_header-Bounded s next h
  find_by-Bounded regular (c ∷ host) s next rests h = h s refl refl refl refl
  find_by-Bounded upstream [] s next rests h = target_of_header-Bounded s next h
  find_by-Bounded upstream (c ∷ host) s next rests h = h s refl refl refl refl

  host_of_server-Bounded :
      (address : Option (Bytes × ℕ)) (s : HttpStream C) (next : HttpStream C → Generator C)
      → Fits false true (s.client_state) (s.server_state) (s.passthrough)
      → NextWith s next
      → Bounded false true (host_of_server world address s next)
  unfolding host_of_server
  host_of_server-Bounded none s next rests h = λ sent. rests
  host_of_server-Bounded (some address) s next rests h = h _ refl refl refl refl

  rewrite_host-Bounded :
      (s : HttpStream C) (next : HttpStream C → Generator C)
      → Fits false true (s.client_state) (s.server_state) (s.passthrough)
      → NextWith s next
      → Bounded false true (rewrite_host world s next)
  unfolding rewrite_host
  rewrite_host-Bounded s next rests h =
      elim (Bool-cases (world.is_reverse && not (world.keep_host_header))) [
        | inl e ↦ rw (e) (host_of_server-Bounded (s.context_server.address) s next rests h)
        | inr e ↦ rw (e) (h s refl refl refl refl)
      ]

  continue_100-Bounded :
      (s : HttpStream C) (next : HttpStream C → Generator C)
      → Next false true (s.client_state) (s.server_state) (s.passthrough) next
      → Bounded false true (continue_100 world s next)
  unfolding continue_100 drop_expect
  continue_100-Bounded s next h = elim (Bool-cases (expects_100 world s)) [
    | inl e ↦ rw (e) (λ sent. h (drop_expect world (count_made s)) refl refl refl)
    | inr e ↦ rw (e) (h s refl refl refl)
  ]

  after_headers-Bounded :
      (end_stream : Bool) (s : HttpStream C)
      → Fits false true (s.client_state) (s.server_state) (s.passthrough)
      → Bounded false true (after_headers world end_stream s)
  unfolding after_headers
  after_headers-Bounded end_stream s rests =
      check_killed-ends s (λ killed s. if killed then stop s else continue_100 world s go)
        (λ t a b c. rw (a, b) refl)
        (λ t a b c.
          continue_100-Bounded t go (λ u i j k. by_stream u (rw (i ∙ a, j ∙ b, k ∙ c) rests)))
    where
      go : HttpStream C → Generator C
      go s =
          if is_streamed (s.flow.request.stream) && not end_stream
          then start_request_stream s (λ s. stop (server_to wait_for_response_headers s))
          else stop (server_to wait_for_response_headers (client_to consume_request_body s))

      by_stream :
          (s : HttpStream C)
          → Fits false true (s.client_state) (s.server_state) (s.passthrough)
          → Bounded false true (go s)
      by_stream s rests =
          elim (Bool-cases (is_streamed (s.flow.request.stream) && not end_stream)) [
            | inl e ↦ rw (e) (
                start_request_stream-Bounded s (λ s. stop (server_to wait_for_response_headers s))
                  rests (λ t a b c. rw (a) refl) (λ t. refl) (λ t a b c. rw (a) refl))
            | inr e ↦ rw (e) refl
          ]

  accept_request-Bounded :
      (end_stream : Bool) (s : HttpStream C)
      → s.client_state ≡ wait_for_request_headers
      → is_over (s.server_state) ≡ false
      → s.request_body_buf ≡ []
      → Bounded false true (accept_request world end_stream s)
  unfolding accept_request find_target
  accept_request-Bounded end_stream s e active empty =
      elim (Bool-cases (bytes_eq (s.flow.request.method) (codes "CONNECT"))) [
        | inl f ↦ rw (f) (handle_connect-Bounded world s)
        | inr f ↦ rw (f) (
            find_by-Bounded (world.mode) (s.flow.request.host) s _ (rw (e, active) refl)
              (λ t a b c d.
                rewrite_host-Bounded (drop_authority world t) (go end_stream)
                  (rw (a ∙ e, ap is_over b ∙ active) refl)
                  (λ u i j k l.
                    goes end_stream u (i ∙ a ∙ e) (ap is_over (j ∙ b) ∙ active) (l ∙ d ∙ empty))))
      ]
    where
      go : Bool → HttpStream C → Generator C
      go b s =
          if b
          then greet_request world end_stream s
          else check_request_size world s
              (λ stopped s. if stopped then stop s else greet_request world end_stream s)

      goes :
          (b : Bool) (s : HttpStream C)
          → s.client_state ≡ wait_for_request_headers
          → is_over (s.server_state) ≡ false
          → s.request_body_buf ≡ []
          → Bounded false true (go b s)
      goes true s e active empty = λ sent.
          after_headers-Bounded end_stream (receive sent (count_made s)) (rw (e, active) refl)
      goes false s e active empty =
          check_request_size-Bounded world s
            (λ stopped s. if stopped then stop s else greet_request world end_stream s) empty
            (λ t a b c. rw (a) (errored-Fits (t.server_state) (t.passthrough)))
            (λ t a b c sent.
              after_headers-Bounded end_stream (receive sent (count_made t))
                (rw (a ∙ e, ap is_over b ∙ active) refl))

  pub on_request_headers-Bounded :
      (event : HttpEvent) (s : HttpStream C)
      → s.client_state ≡ wait_for_request_headers
      → is_over (s.server_state) ≡ false
      → s.request_body_buf ≡ []
      → Bounded false true (on_request_headers world event s)
  unfolding on_request_headers
  on_request_headers-Bounded (request_headers request end_stream replay) s e active empty =
      check_invalid_request-Bounded world (record s { flow = new_flow world request replay })
        (λ bad s. if bad then stop s else accept_request world end_stream s)
        (λ t a b c. rw (a, b) refl)
        (accept_request-Bounded end_stream (record s { flow = new_flow world request replay }) e
          active empty)
  on_request_headers-Bounded _ s e active empty = λ sent. rw (e, active) refl
