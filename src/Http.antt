-- ===== src/Http.antt =====
-- mitmproxy/net/http and the headers of mitmproxy/http.py: header fields, their validation, and how a
-- message is framed.
pub mod Target
pub mod Text
pub mod Headers
pub mod Laws
pub mod Validate
pub mod Body
pub mod Read
pub mod Assemble
pub mod RequestLine
pub mod ContentType
pub mod Encoding
pub mod Content
pub mod Framing
mod Tests
