-- ===== src/Server.antt =====
-- inc/hft_server.h and src/hft_server.cpp, the server.
pub mod State
pub mod Lifecycle
pub mod Services
pub mod Receive
pub mod Worker
pub mod Content
pub mod Handling
pub mod Dispatch
pub mod Refinement
pub mod Unterminated
pub mod Delivery
pub mod Descriptors
pub mod Ownership
pub mod EventLoop
pub mod Shutdown
pub mod Run
pub mod Silence
pub mod Workers
pub mod Stale
