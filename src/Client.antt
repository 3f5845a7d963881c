-- ===== src/Client.antt =====
-- inc/hft_tcp_client.h and src/hft_tcp_client.cpp, the client with background threads.
pub mod State
pub mod Connect
pub mod Latency
pub mod Messages
pub mod Send
pub mod Receive
pub mod Threads
pub mod Polling
pub mod Turns
pub mod Statistics
pub mod Connection
pub mod Requests
pub mod Queue
pub mod Framing
pub mod Sharing
pub mod SendThread
pub mod SameQueue
pub mod Interleaving
pub mod Handlers
pub mod Keeps
pub mod Life
