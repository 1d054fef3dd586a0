-- ===== src/Io.antt =====
-- mitmproxy/io: the files that flows are saved in.
pub mod Tnetstring
pub mod Reader
mod Tests
