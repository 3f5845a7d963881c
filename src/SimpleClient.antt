-- ===== src/SimpleClient.antt =====
-- src/hft_tcp_client_simple.cpp: the class `HFTTCPClientSimple`.
pub mod State
pub mod Link
pub mod Send
pub mod Receive
pub mod Orders
pub mod Average
pub mod Keeps
pub mod Life
