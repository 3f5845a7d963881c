-- ===== src/SimpleTest.antt =====
-- src/simple_latency_test.cpp: the class `SimpleLatencyTest` and `main`.
pub mod Run
pub mod Statistics
pub mod Agreement
pub mod Bags
