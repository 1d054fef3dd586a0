-- ===== src/Proxy/Stream/Ends/Answers.antt =====
-- The hooks of a stream that sends its response and is done.
use middle_man.Base.{
  ◌≡◌, refl, ◌∙◌, Bool, true, false, not, ◌||◌, List, ◌==◌, arith, inl, inr, Bool-cases,
  if◌then◌else◌, ap,
}
use middle_man.Proxy.Layer.{stop}
use middle_man.Proxy.Messages.{
  client, response_headers, response_data, response_trailers, response_end_of_message, has_fields,
  Response, has_text,
}
use middle_man.Proxy.Stream.{
  StreamState, done, World, ChildCommand, HttpStream, Generator, is_done, with_response, server_to,
  count_made, receive, set_dead,
}
use middle_man.Proxy.Stream.Bodies.{
  send, send_content, tell_all, flow_done, finish_response, answer, send_response,
}
use middle_man.Proxy.Stream.Ends.{is_early, is_over, Fits, Bounded}
use middle_man.Proxy.Stream.Ends.Errors.{check_killed-Bounded}
use middle_man.Proxy.Stream.Ends.Bodies.{
  tell_all-Bounded, send_trailers-Bounded, send_content-Bounded, with_response-Bounded,
}

module _ {C : Type 0} where
  pub pass-Fits :
      (credit : Bool) (s : HttpStream C)
      → s.passthrough ≡ true
      → Fits false credit (s.client_state) (s.server_state) (s.passthrough)
  pass-Fits credit s e = ground (arith, e)

  pub late-Fits :
      (s : HttpStream C)
      → is_early (s.client_state) ≡ false
      → is_over (s.server_state) ≡ true
      → Fits false false (s.client_state) (s.server_state) (s.passthrough)
  late-Fits s late over = rw (late, over) refl

module _ {C : Type 0} (world : World C) where
  -- behind the response, nothing ends the flow
  pub flow_done-Bounded :
      (s : HttpStream C)
      → is_early (s.client_state) ≡ false
      → is_over (s.server_state) ≡ true
      → Bounded false false (flow_done world s)
  unfolding flow_done
  flow_done-Bounded s late over =
      with_response-Bounded false false (set_dead s) _ (late-Fits s late over) (λ response.
        elim (Bool-cases (response.status_code == 101)) [
          | inl e ↦ rw (e) (elim (Bool-cases (world.rawtcp)) [
            | inl f ↦ rw (f) (upgrades _ _ refl)
            | inr f ↦ rw (f) (λ sent again. refl)
          ])
          | inr e ↦ rw (e) (λ sent again. refl)
        ])
    where
      upgrades :
          (commands : List ChildCommand) (s : HttpStream C)
          → s.passthrough ≡ true
          → Bounded false false
              (tell_all commands s (λ s. send response_end_of_message client s (λ s. stop s)))
      upgrades commands s e =
          tell_all-Bounded false false commands s
            (λ s. send response_end_of_message client s (λ s. stop s))
            (λ s a b c sent. pass-Fits false (count_made s) (c ∙ e))

  pub finish_response-Bounded :
      (s : HttpStream C)
      → is_early (s.client_state) ≡ false
      → is_over (s.server_state) ≡ true
      → Bounded false false (finish_response world s)
  unfolding finish_response
  finish_response-Bounded s late over =
      with_response-Bounded false false s _ (late-Fits s late over) (λ response.
        send_trailers-Bounded false false response_trailers (response.trailers) client s
          (λ s. if is_done (s.client_state) then flow_done world s else stop s)
          (λ t a b c. ends t (ap is_early a ∙ late) (ap is_over b ∙ over)))
    where
      ends :
          (s : HttpStream C)
          → is_early (s.client_state) ≡ false
          → is_over (s.server_state) ≡ true
          → Bounded false false (if is_done (s.client_state) then flow_done world s else stop s)
      ends s late over = elim (Bool-cases (is_done (s.client_state))) [
        | inl e ↦ rw (e) (flow_done-Bounded s late over)
        | inr e ↦ rw (e) (late-Fits s late over)
      ]

  answer-Bounded :
      (already_streamed : Bool) (s : HttpStream C)
      → is_early (s.client_state) ≡ false
      → Bounded false false (answer world already_streamed s)
  unfolding answer
  answer-Bounded already_streamed s late =
      check_killed-Bounded false false (server_to done s) go (λ s a b c. rw (a, b) refl)
        (λ s a b c. lives s already_streamed (ap is_early a ∙ late) (ap is_over b))
    where
      whole : HttpStream C → Response → Generator C
      whole s response =
          send
            (response_headers response
              (not (has_text (response.content) || has_fields (response.trailers))))
            client s
            (λ s. send_content response_data (response.content) client s (finish_response world))

      go : Bool → HttpStream C → Generator C
      go killed s =
          if killed
          then stop s
          else if already_streamed
          then finish_response world s
          else with_response s (whole s)

      lives :
          (s : HttpStream C) (already_streamed : Bool)
          → is_early (s.client_state) ≡ false
          → is_over (s.server_state) ≡ true
          → Bounded false false
              (if already_streamed then finish_response world s else with_response s (whole s))
      lives s true late over = finish_response-Bounded s late over
      lives s false late over =
          with_response-Bounded false false s (whole s) (late-Fits s late over) (λ response sent.
            send_content-Bounded false false response_data (response.content) client (count_made s)
              (finish_response world)
              (λ t a b c. finish_response-Bounded t (ap is_early a ∙ late) (ap is_over b ∙ over)))

  -- the response hook, and nothing that ends the flow behind it
  pub send_response-Bounded :
      (already_streamed : Bool) (s : HttpStream C)
      → is_early (s.client_state) ≡ false
      → Bounded false true (send_response world already_streamed s)
  unfolding send_response
  send_response-Bounded already_streamed s late =
      with_response-Bounded false true s _ (rests (s.server_state) (s.passthrough)) (λ response.
        (refl, λ sent. answer-Bounded already_streamed (receive sent (count_made s)) late))
    where
      rests :
          (state : StreamState) (passthrough : Bool)
          → Fits false true (s.client_state) state passthrough
      rests state passthrough = rw (late) refl
