-- ===== src/Proxy/Stream/Connect.antt =====
-- How a stream answers CONNECT, and starts the layer that runs behind it.
use middle_man.Base.{
  true, false, not, ◌&&◌, ◌||◌, Option, none, some, [], ◌∷◌, ltb, leb, if◌then◌else◌,
}
use middle_man.Http.Text.{codes}
use middle_man.Proxy.Layer.{stop}
use middle_man.Proxy.Messages.{
  HttpMode, regular, transparent, upstream, Request, Response, off, client, response_headers,
  response_data, response_trailers, response_end_of_message, has_text, has_fields, get_or,
  make_response,
}
use middle_man.Proxy.Stream.{
  done, errored, World, HttpStream, Generator, connect_hook, connected_hook, connect_error_hook,
  open_connection, Reply, opened, child_start, ask, hook, set_dead, set_response, client_to,
  with_response,
}
use middle_man.Proxy.Stream.Errors.{check_killed}
use middle_man.Proxy.Stream.Bodies.{send, send_trailers, send_content, tell_all}

-- the response that a successful CONNECT gets
abbrev pub established : Request → Response
established request = record {
  http_version = request.http_version;
  status_code = 200;
  headers = [];
  content = some [];
  trailers = none;
  stream = off;
}

module _ {C : Type 0} where
  -- the answer of `handle_connect_finish`
  unfoldable pub send_connect_response : HttpStream C → Generator C
  send_connect_response s = with_response s (λ response.
      send
        (response_headers response
          (not (has_text (response.content) || has_fields (response.trailers))))
        client s
        (λ s. send_content response_data (response.content) client s (λ s.
          send_trailers response_trailers (response.trailers) client s
            (λ s. send response_end_of_message client s (λ s. stop s)))))

  abbrev pub default_response : HttpStream C → HttpStream C
  default_response s = set_response (get_or (established (s.flow.request)) (s.flow.response)) s

module _ {C : Type 0} (world : World C) where
  abbrev pub run_child : HttpStream C → (HttpStream C → Generator C) → Generator C
  run_child s next =
      let run = world.child_step child_start (get_or (world.next_layer) (s.child_layer)) in
      tell_all (run.0) (record s { passthrough = true; child_layer = some (run.1) }) next

  -- `handle_connect_finish`
  unfoldable pub handle_connect_finish : HttpStream C → Generator C
  unfolding send_connect_response tell_all
  handle_connect_finish s = with_response (default_response s) (λ response.
      if leb 200 (response.status_code) && ltb (response.status_code) 300
      then hook connected_hook (default_response s) (λ s. run_child s send_connect_response)
      else hook connect_error_hook (default_response s)
          (λ s. send_connect_response (set_dead (client_to errored s))))

  abbrev pub with_child : C → HttpStream C → HttpStream C
  with_child child s = record s { child_layer = some child }

  -- what follows the `OpenConnection` of `handle_connect_regular`. The text of the response is shortened.
  abbrev pub after_connect : Option Reply → HttpStream C → Generator C
  after_connect (some (opened (c ∷ err) peeked)) s =
      handle_connect_finish (
        with_child (world.next_layer) (set_response (make_response 502 (codes "Cannot connect")) s))
  after_connect _ s = handle_connect_finish (with_child (world.next_layer) s)

  unfoldable pub handle_connect_regular : HttpStream C → Generator C
  unfolding handle_connect_finish
  handle_connect_regular s =
      let next = with_child (world.next_layer) s in
      elim (s.flow.response) [
        | some response ↦ handle_connect_finish next
        | none ↦
            if world.is_eager
            then ask open_connection s after_connect
            else handle_connect_finish next
      ]

  unfoldable pub handle_connect_upstream : HttpStream C → Generator C
  unfolding handle_connect_finish
  handle_connect_upstream s = handle_connect_finish (with_child (world.upstream_layer) s)

  abbrev pub connect_by : HttpMode → HttpStream C → Generator C
  connect_by regular s = handle_connect_regular s
  connect_by transparent s = handle_connect_upstream s
  connect_by upstream s = handle_connect_upstream s

  -- `handle_connect`
  unfoldable pub handle_connect : HttpStream C → Generator C
  unfolding check_killed handle_connect_regular handle_connect_upstream
  handle_connect s = hook connect_hook (client_to done s) (λ s. check_killed false s (λ killed s.
      if killed
      then stop s
      else connect_by (world.mode) (record s {
        context_server = record s.context_server {
          address = some (s.flow.request.host, s.flow.request.port);
        };
      })))
