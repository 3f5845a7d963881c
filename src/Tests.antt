-- ===== src/Tests.antt =====
-- The properties at concrete inputs: the messages, the server and the client that they are tried on.
mod Samples
mod Server
mod Unterminated
mod Client
mod Sending
mod LatencyClient
mod SimpleClient
mod LoadTest
mod Programs
mod System
mod Clients
