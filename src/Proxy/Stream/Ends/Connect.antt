-- ===== src/Proxy/Stream/Ends/Connect.antt =====
-- The hooks of a stream at CONNECT.
use middle_man.Base.{
  ◌≡◌, refl, ◌∙◌, true, false, ◌&&◌, leb, ltb, Option, none, some, [], ◌∷◌, inl, inr, Bool-cases,
  if◌then◌else◌,
}
use middle_man.Proxy.Layer.{stop}
use middle_man.Proxy.Messages.{
  HttpMode, regular, transparent, upstream, Response, client, response_data, response_trailers,
  response_end_of_message, get_or,
}
use middle_man.Proxy.Stream.{
  done, errored, World, HttpStream, Generator, Reply, opened, hook_done, got_connection, client_to,
  count_made, receive, set_dead, ask, hook, connected_hook, connect_error_hook, open_connection,
  child_start,
}
use middle_man.Proxy.Stream.Bodies.{send, send_trailers}
use middle_man.Proxy.Stream.Connect.{
  send_connect_response, default_response, run_child, handle_connect_finish, with_child,
  after_connect, handle_connect_regular, handle_connect_upstream, connect_by, handle_connect,
}
use middle_man.Proxy.Stream.Ends.{Fits, Bounded}
use middle_man.Proxy.Stream.Ends.Errors.{check_killed-Bounded}
use middle_man.Proxy.Stream.Ends.Bodies.{
  tell_all-Bounded, send_trailers-Bounded, send_content-Bounded, with_response-Bounded,
}
use middle_man.Proxy.Stream.Ends.Answers.{pass-Fits}

module _ {C : Type 0} where
  send_connect_response-Bounded :
      (s : HttpStream C)
      → Fits false true (s.client_state) (s.server_state) (s.passthrough)
      → Bounded false true (send_connect_response s)
  unfolding send_connect_response
  send_connect_response-Bounded s rests =
      with_response-Bounded false true s _ rests (λ response sent.
        send_content-Bounded false true response_data (response.content) client (count_made s)
          (λ s.
            send_trailers response_trailers (response.trailers) client s
              (λ s. send response_end_of_message client s (λ s. stop s)))
          (λ t a b c.
            send_trailers-Bounded false true response_trailers (response.trailers) client t
              (λ s. send response_end_of_message client s (λ s. stop s))
              (λ u i j k sent. rw (i ∙ a, j ∙ b, k ∙ c) rests)))

module _ {C : Type 0} (world : World C) where
  handle_connect_finish-Bounded :
      (s : HttpStream C)
      → s.client_state ≡ done
      → Bounded false true (handle_connect_finish world s)
  unfolding handle_connect_finish
  handle_connect_finish-Bounded s e =
      with_response-Bounded false true (default_response s) go (rw (e) refl) (λ response.
        elim (Bool-cases (leb 200 (response.status_code) && ltb (response.status_code) 300)) [
          | inl f ↦ rw (f) (λ sent.
              tell_all-Bounded false true _
                (connected (receive sent (count_made (default_response s)))) send_connect_response
                (λ t a b c. send_connect_response-Bounded t (pass-Fits true t c)))
          | inr f ↦ rw (f) (λ sent. send_connect_response-Bounded _ refl)
        ])
    where
      connected : HttpStream C → HttpStream C
      connected s = record s {
        passthrough = true;
        child_layer =
            some ((world.child_step child_start (get_or (world.next_layer) (s.child_layer))).1);
      }

      go : Response → Generator C
      go response =
          if leb 200 (response.status_code) && ltb (response.status_code) 300
          then hook connected_hook (default_response s)
              (λ s. run_child world s send_connect_response)
          else hook connect_error_hook (default_response s)
              (λ s. send_connect_response (set_dead (client_to errored s)))

  after_connect-Bounded :
      (sent : Option Reply) (s : HttpStream C)
      → s.client_state ≡ done
      → Bounded false true (after_connect world sent s)
  after_connect-Bounded (some (opened (c ∷ err) peeked)) s e = handle_connect_finish-Bounded _ e
  after_connect-Bounded (some (opened [] peeked)) s e = handle_connect_finish-Bounded _ e
  after_connect-Bounded (some (hook_done flow peeked)) s e = handle_connect_finish-Bounded _ e
  after_connect-Bounded (some (got_connection found err peeked)) s e =
      handle_connect_finish-Bounded _ e
  after_connect-Bounded none s e = handle_connect_finish-Bounded _ e

  connect_regular-Bounded :
      (s : HttpStream C)
      → s.client_state ≡ done
      → Bounded false true (handle_connect_regular world s)
  unfolding handle_connect_regular
  connect_regular-Bounded s e = by_response (s.flow.response)
    where
      finished :
          Bounded false true (handle_connect_finish world (with_child world (world.next_layer) s))
      finished = handle_connect_finish-Bounded (with_child world (world.next_layer) s) e

      by_response :
          (response : Option Response)
          → Bounded false true (elim response [
            | some response ↦ handle_connect_finish world (with_child world (world.next_layer) s)
            | none ↦
                if world.is_eager
                then ask open_connection s (after_connect world)
                else handle_connect_finish world (with_child world (world.next_layer) s)
          ])
      by_response (some response) = finished
      by_response none = elim (Bool-cases (world.is_eager)) [
        | inl f ↦ rw (f) (λ sent. after_connect-Bounded sent (receive sent (count_made s)) e)
        | inr f ↦ rw (f) finished
      ]

  connect_by-Bounded :
      (mode : HttpMode) (s : HttpStream C)
      → s.client_state ≡ done
      → Bounded false true (connect_by world mode s)
  unfolding handle_connect_upstream
  connect_by-Bounded regular s e = connect_regular-Bounded s e
  connect_by-Bounded transparent s e =
      handle_connect_finish-Bounded (with_child world (world.upstream_layer) s) e
  connect_by-Bounded upstream s e =
      handle_connect_finish-Bounded (with_child world (world.upstream_layer) s) e

  pub handle_connect-Bounded : (s : HttpStream C) → Bounded false true (handle_connect world s)
  unfolding handle_connect
  handle_connect-Bounded s = λ sent.
      check_killed-Bounded false true (receive sent (count_made (client_to done s)))
        (λ killed s. if killed then stop s else connect_by world (world.mode) (to_target s))
        (λ t a b c. rw (a) refl) (λ t a b c. connect_by-Bounded (world.mode) (to_target t) a)
    where
      to_target : HttpStream C → HttpStream C
      to_target s = record s {
        context_server = record s.context_server {
          address = some (s.flow.request.host, s.flow.request.port);
        };
      }
