-- ===== src/Proxy/Stream/Ends/Sizes.antt =====
-- The hooks of a stream where it checks the size of a body.
use middle_man.Base.{◌≡◌, refl, ◌∙◌, Bool, true, false, ◌||◌, [], ◌∷◌, if◌then◌else◌}
use middle_man.Http.Text.{Bytes}
use middle_man.Proxy.Layer.{stop}
use middle_man.Proxy.Messages.{Response, on}
use middle_man.Proxy.Stream.{
  StreamState, stream_response_body, errored, World, HttpStream, Generator, HttpCommand,
  request_headers_hook, response_headers_hook, set_request, set_response,
}
use middle_man.Proxy.Stream.Bodies.{stream_response_data, replay_request_data}
use middle_man.Proxy.Stream.Sizes.{
  is_unlimited, exceeds, request_size, response_size, request_exceeds, response_exceeds, announce,
  flush_request, flush_response, check_request_size, check_response_size,
}
use middle_man.Proxy.Stream.Ends.{plain, kind_of, is_over, Fits, Bounded, Next}
use middle_man.Proxy.Stream.Ends.Bodies.{
  start_request_stream-Bounded, start_response_stream-Bounded, stream_response_data-Bounded,
  replay_request_data-Bounded,
}

-- a failed request needs no hook any more
pub errored-Fits :
    (state : StreamState) (passthrough : Bool) → Fits false false errored state passthrough
errored-Fits state passthrough = by_over (is_over state)
  where
    by_over : (b : Bool) → ((b || true) || passthrough) ≡ true
    by_over true = refl
    by_over false = refl

module _ {C : Type 0} where
  choose-Bounded :
      (a b c : Bool) (w x y z : Generator C)
      → Bounded false true w
      → Bounded false true x
      → Bounded false true y
      → Bounded false true z
      → Bounded false true (if a then w else if b then x else if c then y else z)
  choose-Bounded true b c w x y z h i j k = h
  choose-Bounded false true c w x y z h i j k = i
  choose-Bounded false false true w x y z h i j k = j
  choose-Bounded false false false w x y z h i j k = k

  announce-Bounded :
      (headers_hook : HttpCommand) (body : Bytes) (s : HttpStream C)
      (next : HttpStream C → Generator C)
      → kind_of headers_hook ≡ plain
      → Next false true (s.client_state) (s.server_state) (s.passthrough) next
      → Bounded false true (announce headers_hook body s next)
  announce-Bounded headers_hook [] s next e h = rw (e) (λ sent. h _ refl refl refl)
  announce-Bounded headers_hook (c ∷ body) s next e h = h s refl refl refl

  flush_request-empty :
      (body : Bytes) (s : HttpStream C) (next : Bool → HttpStream C → Generator C)
      → body ≡ []
      → Bounded false true (next false s)
      → Bounded false true (flush_request body s next)
  unfolding flush_request
  flush_request-empty body s next empty h = rw (empty, flush_request) h

  flush_request-stops :
      (body : Bytes) (s : HttpStream C)
      → Fits false true (s.client_state) (s.server_state) (s.passthrough)
      → Bounded false true (flush_request body s (λ stopped s. stop s))
  unfolding flush_request
  flush_request-stops [] s rests = rests
  flush_request-stops (c ∷ body) s rests =
      start_request_stream-Bounded (record s { request_body_buf = [] })
        (λ s. replay_request_data (c ∷ body) s (λ s. stop s)) rests
        (λ s a b p.
          replay_request_data-Bounded false false (c ∷ body) s (λ s. stop s)
            (λ s i j k. rw (i ∙ a, j ∙ b) refl))
        (λ s. replay_request_data-Bounded true false (c ∷ body) s (λ s. stop s) (λ s i j k. refl))
        (λ s a b p.
          replay_request_data-Bounded false true (c ∷ body) s (λ s. stop s)
            (λ s i j k. rw (i ∙ a) refl))

  flush_response-Bounded :
      (body : Bytes) (s : HttpStream C) (next : Bool → HttpStream C → Generator C)
      → Fits false true (s.client_state) (s.server_state) (s.passthrough)
      → Fits false true (s.client_state) stream_response_body (s.passthrough)
      → Next false true (s.client_state) (s.server_state) (s.passthrough) (next false)
      → Next false true (s.client_state) stream_response_body (s.passthrough) (next false)
      → Bounded false true (flush_response body s next)
  unfolding flush_response
  flush_response-Bounded [] s next rests streaming goes streams = goes s refl refl refl
  flush_response-Bounded (c ∷ body) s next rests streaming goes streams =
      start_response_stream-Bounded false true (record s { response_body_buf = [] })
        (λ s. stream_response_data (c ∷ body) s (next false)) rests
        (λ t a b p.
          stream_response_data-Bounded false true (c ∷ body) t (next false) (rw (a, b, p) streaming)
            (λ u i j k. streams u (i ∙ a) (j ∙ b) (k ∙ p)))

module _ {C : Type 0} (world : World C) where
  -- before anything of the body is there
  pub check_request_size-Bounded :
      (s : HttpStream C) (next : Bool → HttpStream C → Generator C)
      → s.request_body_buf ≡ []
      → Next false false errored (s.server_state) (s.passthrough) (next true)
      → Next false true (s.client_state) (s.server_state) (s.passthrough) (next false)
      → Bounded false true (check_request_size world s next)
  unfolding check_request_size
  check_request_size-Bounded s next empty stops goes =
      choose-Bounded (is_unlimited world) (exceeds (request_size world s) (world.body_size_limit))
        (exceeds (request_size world s) (world.stream_large_bodies)) _ _ _ _ (goes s refl refl refl)
        (announce-Bounded request_headers_hook (s.request_body_buf) s (λ s. request_exceeds s next)
          refl (λ t a b p. (refl, λ sent again. stops _ refl b p)))
        (flush_request-empty (s.request_body_buf)
          (set_request (record s.flow.request { stream = on }) s) next empty
          (goes _ refl refl refl))
        (goes s refl refl refl)

  -- while the body is buffered
  pub check_request_size-stops :
      (s : HttpStream C)
      → Fits false true (s.client_state) (s.server_state) (s.passthrough)
      → Bounded false true (check_request_size world s (λ stopped s. stop s))
  unfolding check_request_size
  check_request_size-stops s rests =
      choose-Bounded (is_unlimited world) (exceeds (request_size world s) (world.body_size_limit))
        (exceeds (request_size world s) (world.stream_large_bodies)) _ _ _ _ rests
        (announce-Bounded request_headers_hook (s.request_body_buf) s
          (λ s. request_exceeds s (λ stopped s. stop s)) refl
          (λ t a b p. (refl, λ sent again. errored-Fits (t.server_state) (t.passthrough))))
        (flush_request-stops (s.request_body_buf)
          (set_request (record s.flow.request { stream = on }) s) rests)
        rests

  pub check_response_size-Bounded :
      (response : Response) (s : HttpStream C) (next : Bool → HttpStream C → Generator C)
      → Fits false true (s.client_state) (s.server_state) (s.passthrough)
      → Fits false true (s.client_state) stream_response_body (s.passthrough)
      → Next false false errored errored (s.passthrough) (next true)
      → Next false true (s.client_state) (s.server_state) (s.passthrough) (next false)
      → Next false true (s.client_state) stream_response_body (s.passthrough) (next false)
      → Bounded false true (check_response_size world response s next)
  unfolding check_response_size
  check_response_size-Bounded response s next rests streaming stops goes streams =
      choose-Bounded (is_unlimited world)
        (exceeds (response_size world response s) (world.body_size_limit))
        (exceeds (response_size world response s) (world.stream_large_bodies)) _ _ _ _
        (goes s refl refl refl)
        (announce-Bounded response_headers_hook (s.response_body_buf) s
          (λ s. response_exceeds s next) refl
          (λ t a b p. (refl, λ sent again more. stops _ refl refl p)))
        (flush_response-Bounded (s.response_body_buf)
          (set_response (record response { stream = on }) s) next rests streaming goes streams)
        (goes s refl refl refl)
