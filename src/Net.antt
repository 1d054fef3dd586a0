-- ===== src/Net.antt =====
-- mitmproxy/net outside http1: hosts and ports (check.py), authorities (http/url.py) and server
-- specifications (server_spec.py).
pub mod Check
pub mod Authority
pub mod Hostport
pub mod ServerSpec
mod Tests
