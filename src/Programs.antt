-- ===== src/Programs.antt =====
-- The programs: src/main.cpp, src/latency_test_main.cpp, src/hft_tcp_client_test.cpp, and the `main`
-- functions of the simple client and of the two latency tests.
pub mod Numbers
pub mod Decimal
pub mod Arguments
pub mod CommandLine
pub mod Server
pub mod Loop
pub mod Service
pub mod LatencyArguments
pub mod LatencyTest
pub mod Unsent
pub mod Streams
pub mod Commands
pub mod CommandText
pub mod Options
pub mod ClientTest
pub mod Trades
pub mod Quiet
pub mod Modes
pub mod Endings
pub mod Measurements
pub mod SimpleClient
pub mod Descriptors
pub mod ClientWords
