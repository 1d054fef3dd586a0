-- ===== src/Proxy/Stream/Ends/Errors.antt =====
-- The hooks of `check_killed`, `handle_protocol_error` and what calls them.
use middle_man.Base.{
  refl, Bool, true, false, ◌||◌, Option, none, some, [], ◌∷◌, inl, inr, Bool-cases, if◌then◌else◌,
}
use middle_man.Proxy.Messages.{
  ErrorCode, connect_failed, request_validation_failed, response_validation_failed, Response,
  has_text,
}
use middle_man.Proxy.Stream.{
  errored, World, HttpStream, Generator, Reply, hook_done, got_connection, opened, is_errored,
  client_to, count_made, receive,
}
use middle_man.Proxy.Stream.Errors.{
  is_killed, check_killed, ProtocolError, of_request, of_response, is_upstream_error,
  needs_error_hook, drop_after, report_error, after_report, handle_protocol_error,
  is_invalid_request, is_invalid_response, refuse, check_invalid_request, check_invalid_response,
  use_connection, make_server_connection,
}
use middle_man.Proxy.Stream.Ends.{Fits, Bounded, Next, Bounded-credit}

module _ {C : Type 0} where
  pub check_killed-Bounded :
      (dropped credit : Bool) (s : HttpStream C) (next : Bool → HttpStream C → Generator C)
      → Next dropped credit errored errored (s.passthrough) (next true)
      → Next dropped credit (s.client_state) (s.server_state) (s.passthrough) (next false)
      → Bounded dropped credit (check_killed false s next)
  unfolding check_killed
  check_killed-Bounded dropped credit s next killed lives =
      elim (Bool-cases (is_killed s || has_text (s.peeked))) [
        | inl e ↦ rw (e, check_killed) (λ sent. killed _ refl refl refl)
        | inr e ↦ rw (e, check_killed) (lives s refl refl refl)
      ]

  -- with the error hook
  pub check_killed-ends :
      (s : HttpStream C) (next : Bool → HttpStream C → Generator C)
      → Next false false errored errored (s.passthrough) (next true)
      → Next false true (s.client_state) (s.server_state) (s.passthrough) (next false)
      → Bounded false true (check_killed true s next)
  unfolding check_killed
  check_killed-ends s next killed lives = elim (Bool-cases (is_killed s || has_text (s.peeked))) [
    | inl e ↦ rw (e, check_killed) (refl, λ sent. λ sent. killed _ refl refl refl)
    | inr e ↦ rw (e, check_killed) (lives s refl refl refl)
  ]

  drop_after-Bounded :
      (dropped : Bool) (event : ProtocolError) (s : HttpStream C)
      (next : HttpStream C → Generator C)
      → ((s : HttpStream C) → Bounded true false (next s))
      → Bounded dropped false (drop_after event s next)
  unfolding drop_after
  drop_after-Bounded dropped (of_request message code) s next h = λ sent. h _
  drop_after-Bounded dropped (of_response message code) s next h =
      elim (Bool-cases (is_errored (s.client_state))) [
        | inl e ↦ rw (e, drop_after) (λ sent. h _)
        | inr e ↦ rw (e, drop_after) (λ sent. λ sent. h _)
      ]

  after_report-Bounded :
      (dropped : Bool) (event : ProtocolError) (s : HttpStream C)
      (next : HttpStream C → Generator C)
      → Next dropped false errored errored (s.passthrough) next
      → ((s : HttpStream C) → Bounded true false (next s))
      → Bounded dropped false (after_report event s next)
  after_report-Bounded dropped event s next killed gone =
      check_killed-Bounded dropped false s (λ b s. if b then next s else drop_after event s next)
        killed (λ s a b c. drop_after-Bounded dropped event s next gone)

  report_error-Bounded :
      (dropped needed : Bool) (event : ProtocolError) (s : HttpStream C)
      (next : HttpStream C → Generator C)
      → Next dropped false errored errored (s.passthrough) next
      → ((s : HttpStream C) → Bounded true false (next s))
      → Bounded dropped needed (report_error needed event s next)
  report_error-Bounded dropped true event s next killed gone =
      (refl, λ sent. after_report-Bounded dropped event _ next killed gone)
  report_error-Bounded dropped false event s next killed gone =
      after_report-Bounded dropped event s next killed gone

  -- The error hook comes only where one is needed; the stream is killed or dropped.
  pub handle_protocol_error-Bounded :
      (dropped : Bool) (event : ProtocolError) (s : HttpStream C)
      (next : HttpStream C → Generator C)
      → Next dropped false errored errored (s.passthrough) next
      → ((s : HttpStream C) → Bounded true false (next s))
      → Bounded dropped (needs_error_hook s) (handle_protocol_error event s next)
  unfolding handle_protocol_error
  handle_protocol_error-Bounded dropped event s next killed gone =
      elim (Bool-cases (is_upstream_error event s)) [
        | inl e ↦
            rw (e, handle_protocol_error)
              (λ sent.
                report_error-Bounded dropped (needs_error_hook s) event
                  (client_to errored (count_made s)) next killed gone)
        | inr e ↦
            rw (e, handle_protocol_error)
              (report_error-Bounded dropped (needs_error_hook s) event s next killed gone)
      ]

  pub handle_protocol_error-credit :
      (dropped : Bool) (event : ProtocolError) (s : HttpStream C)
      (next : HttpStream C → Generator C)
      → Next dropped false errored errored (s.passthrough) next
      → ((s : HttpStream C) → Bounded true false (next s))
      → Bounded dropped true (handle_protocol_error event s next)
  handle_protocol_error-credit dropped event s next killed gone =
      by_need (needs_error_hook s) (handle_protocol_error-Bounded dropped event s next killed gone)
    where
      by_need :
          (needed : Bool)
          → Bounded dropped needed (handle_protocol_error event s next)
          → Bounded dropped true (handle_protocol_error event s next)
      by_need true h = h
      by_need false h = Bounded-credit dropped (handle_protocol_error event s next) h

  use_connection-Bounded :
      (sent : Option Reply) (s : HttpStream C) (next : Bool → HttpStream C → Generator C)
      → Fits false true (s.client_state) (s.server_state) (s.passthrough)
      → Next false false errored errored (s.passthrough) (next false)
      → ((s : HttpStream C) → Bounded true false (next false s))
      → Next false true (s.client_state) (s.server_state) (s.passthrough) (next true)
      → Bounded false true (use_connection sent s next)
  unfolding use_connection
  use_connection-Bounded none s next rests killed gone lives = λ sent. rests
  use_connection-Bounded (some (hook_done flow peeked)) s next rests killed gone lives =
      λ sent. rests
  use_connection-Bounded (some (opened err peeked)) s next rests killed gone lives = λ sent. rests
  use_connection-Bounded (some (got_connection found [] peeked)) s next rests killed gone lives =
      lives _ refl refl refl
  use_connection-Bounded (some (got_connection found (c ∷ err) peeked)) s next rests killed gone
        lives =
      handle_protocol_error-credit false (of_response (c ∷ err) connect_failed) s (next false)
        killed gone

  pub make_server_connection-Bounded :
      (s : HttpStream C) (next : Bool → HttpStream C → Generator C)
      → Fits false true (s.client_state) (s.server_state) (s.passthrough)
      → Next false false errored errored (s.passthrough) (next false)
      → ((s : HttpStream C) → Bounded true false (next false s))
      → Next false true (s.client_state) (s.server_state) (s.passthrough) (next true)
      → Bounded false true (make_server_connection s next)
  unfolding make_server_connection
  make_server_connection-Bounded s next rests killed gone lives =
      λ sent. use_connection-Bounded sent (receive sent (count_made s)) next rests killed gone lives

  refuse-Bounded :
      (is_request : Bool) (s : HttpStream C) (code : ErrorCode) (next : HttpStream C → Generator C)
      → Next false false errored errored (s.passthrough) next
      → Bounded false true (refuse is_request code s next)
  refuse-Bounded true s code next h = λ sent. (refl, λ sent. λ sent. h _ refl refl refl)
  refuse-Bounded false s code next h = λ sent. (refl, λ sent. λ sent. h _ refl refl refl)

  module _ (world : World C) where
    -- an invalid message is refused with the error hook
    pub check_invalid_request-Bounded :
        (s : HttpStream C) (next : Bool → HttpStream C → Generator C)
        → Next false false errored errored (s.passthrough) (next true)
        → Bounded false true (next false s)
        → Bounded false true (check_invalid_request world s next)
    unfolding check_invalid_request
    check_invalid_request-Bounded s next bad lives =
        elim (Bool-cases (is_invalid_request world (s.flow.request))) [
          | inl e ↦
              rw (e, check_invalid_request)
                (refuse-Bounded true s request_validation_failed (next true) bad)
          | inr e ↦ rw (e, check_invalid_request) lives
        ]

    pub check_invalid_response-Bounded :
        (response : Response) (s : HttpStream C) (next : Bool → HttpStream C → Generator C)
        → Next false false errored errored (s.passthrough) (next true)
        → Bounded false true (next false s)
        → Bounded false true (check_invalid_response world response s next)
    unfolding check_invalid_response
    check_invalid_response-Bounded response s next bad lives =
        elim (Bool-cases (is_invalid_response world response)) [
          | inl e ↦
              rw (e, check_invalid_response)
                (refuse-Bounded false s response_validation_failed (next true) bad)
          | inr e ↦ rw (e, check_invalid_response) lives
        ]
