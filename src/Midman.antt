-- ===== src/Midman.antt =====
-- midman/: the reporter process, which pairs the plaintext of the proxy with TLS records.
pub mod Fault
pub mod Connection
pub mod Session
pub mod Store
pub mod Reporter
pub mod Writer
pub mod Listener
pub mod System
mod Tests
