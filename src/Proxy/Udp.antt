-- ===== src/Proxy/Udp.antt =====
-- `UDPLayer` of mitmproxy/proxy/layers/udp.py. Its flow, messages, events and hooks are those of the TCP
-- layer under other names, and its `start` and its relaying of data are the same code; it has no
-- half-closed connections. The names of Tcp stand for their namesakes here.
pub mod Flow
use middle_man.Base.{ℕ, Bool, List}
use middle_man.Proxy.Layer.{Event, completed, other, stop}
use middle_man.Proxy.Tcp.{
  TcpEvent, TcpCommand, start, data_received, connection_closed, tcp_message_injected, Reply,
  tcp_end_hook, close_connection, Peer, other_peer, peer_of, Handler, starting, relay_messages,
  done, TcpState, Generator, goto, tell, hook, set_dead, unexpected,
}
use middle_man.Proxy.Tcp

-- the hooks and commands, and the layer's attributes
abbrev pub UdpCommand : Type 0
UdpCommand = TcpCommand

-- `__init__`
abbrev pub new_layer : Bool → TcpState
new_layer ignore = Tcp.new_layer ignore

-- `start`
unfoldable pub on_start : Bool → TcpState → Generator
unfolding Tcp.on_start
on_start connected s = Tcp.on_start connected s

-- `relay_messages` on data
unfoldable pub relay_data : Peer → List ℕ → TcpState → Generator
unfolding Tcp.relay_data
relay_data peer content s = Tcp.relay_data peer content s

-- `relay_messages` on a closed connection: the other one is closed too, whatever its state
unfoldable pub relay_closed : Peer → TcpState → Generator
unfolding set_dead
relay_closed peer s =
    tell (close_connection (other_peer peer)) (goto done s)
      (λ s. hook tcp_end_hook s (λ s. stop (set_dead s)))

unfoldable pub on_relay : TcpEvent → TcpState → Generator
unfolding relay_data relay_closed
on_relay (start connected) s = unexpected s
on_relay (data_received peer content) s = relay_data peer content s
on_relay (connection_closed peer of_client of_server) s = relay_closed peer s
on_relay (tcp_message_injected from_client content) s = relay_data (peer_of from_client) content s

unfoldable pub on_event : Handler → TcpEvent → TcpState → Generator
unfolding on_start on_relay
on_event starting (start connected) s = on_start connected s
on_event starting _ s = unexpected s
on_event relay_messages event s = on_relay event s
on_event done (start connected) s = unexpected s
on_event done _ s = stop s

-- `_handle_event`
unfoldable pub _handle_event : Event TcpEvent Reply → TcpState → Generator
unfolding on_event
_handle_event (completed id reply) s = unexpected s
_handle_event (other event) s = on_event (s.handler) event s
