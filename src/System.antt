-- ===== src/System.antt =====
-- How the components interact: a client's messages at the server, and the latency tests with the
-- server that src/main.cpp starts.
pub mod Segments
pub mod Coalesced
pub mod Answers
pub mod Session
pub mod Orders
