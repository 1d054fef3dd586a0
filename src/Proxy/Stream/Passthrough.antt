-- ===== src/Proxy/Stream/Passthrough.antt =====
-- What a stream does once it passes its events to another layer.
use middle_man.Base.{Bool, true, false, ◌==◌, none, some, List, [], ◌∷◌}
use middle_man.Http.Text.{codes}
use middle_man.Proxy.Layer.{stop}
use middle_man.Proxy.Messages.{
  passthrough_close, client, server, HttpEvent, request_data, request_end_of_message, response_data,
  response_end_of_message, request_protocol_error, response_protocol_error,
}
use middle_man.Proxy.Stream.{
  World, HttpStream, Generator, HttpCommand, send_http, child_command, data_received,
  connection_closed, other_event, ChildEvent, ChildCommand, send_data, close_connection,
  other_command, tell, raise, with_response,
}

module _ {C : Type 0} (world : World C) where
  -- the event that `passthrough` hands to the child
  abbrev pub child_event : HttpEvent → ChildEvent
  child_event (request_data body) = data_received client body
  child_event (response_data body) = data_received server body
  child_event request_end_of_message = connection_closed client
  child_event response_end_of_message = connection_closed server
  child_event event = other_event event

  -- the command that it makes of the child's, for a response with or without status 101
  abbrev pub parent_command : Bool → ChildCommand → HttpCommand
  parent_command switched (send_data client body) = send_http (response_data body) client
  parent_command true (send_data server body) = send_http (request_data body) server
  parent_command true (close_connection server half) =
      send_http (request_protocol_error (codes "EOF") passthrough_close) server
  parent_command switched (close_connection client half) =
      send_http (response_protocol_error (codes "EOF") passthrough_close) client
  parent_command false (send_data server body) = child_command (send_data server body)
  parent_command false (close_connection server half) =
      child_command (close_connection server false)
  parent_command switched (other_command n) = child_command (other_command n)

  unfoldable pub tell_parent : Bool → List ChildCommand → HttpStream C → Generator C
  tell_parent switched [] s = stop s
  tell_parent switched (command ∷ commands) s =
      tell (parent_command switched command) s (tell_parent switched commands)

  -- `passthrough`
  unfoldable pub on_passthrough : HttpEvent → HttpStream C → Generator C
  unfolding tell_parent
  on_passthrough event s = with_response s (λ response. elim (s.child_layer) [
    | none ↦ raise s
    | some child ↦
        let run = world.child_step (child_event event) child in
        tell_parent (response.status_code == 101) (run.0) (record s { child_layer = some (run.1) })
  ])
