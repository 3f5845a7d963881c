-- ===== src/LoadTest.antt =====
-- src/hft_latency_test_100k.cpp: the class `HFTLatencyTest100K`.
pub mod State
pub mod Run
pub mod Responses
pub mod Statistics
pub mod Matching
pub mod Loop
pub mod Waiting
pub mod Order
