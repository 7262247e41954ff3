-- ===== src/Pipe.antt =====
-- utils/pipe.go: the pipes that decode a datagram and hand it to a producer, a format and a transport.
pub mod Flow
mod Laws
mod Traces
mod Tests
