-- ===== src/Proxy.antt =====
-- The layers of mitmproxy/proxy.
pub mod Buffer
pub mod Layer
pub mod Next
pub mod Tcp
pub mod Udp
pub mod Modes
pub mod Messages
pub mod Stream
mod Tests
