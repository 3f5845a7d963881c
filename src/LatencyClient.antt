-- ===== src/LatencyClient.antt =====
-- inc/latency_client.h and src/latency_client.cpp: the class `LatencyTestClient`.
pub mod State
pub mod Link
pub mod Run
pub mod Responses
pub mod Percentiles
pub mod Matching
pub mod Closing
pub mod Load
pub mod Indices
pub mod Unsent
