-- ===== src/Lib.antt =====
-- A model of the HFT system: its messages, its TCP server and its clients.
--
-- The clients (inc/hft_tcp_client.h, inc/latency_client.h) send messages, which are the bytes of
-- the structures of inc/message.h, over a TCP connection to the server (inc/hft_server.h). The
-- server's workers take events from one epoll instance, accept connections, cast what `recv` put
-- into one shared buffer to a message, and hand it to the service that is registered for its
-- type.
--
-- * `Message` is inc/message.h. `Types` has the enumerations, structures and constructors; an
--   enumeration holds any byte, so each has a constructor `unnamed`. `Layout` has the sizes and
--   offsets of the x86-64 C++ ABI. `Codec` is a cast from bytes to a structure and the copy of a
--   structure to bytes, a field at a time with its padding; a cast of too few bytes is `none`.
--   C++ leaves the padding of a structure indeterminate: the copy writes it as 0, and the casts
--   pass over it. `Symbol` is the print of a symbol as a C string, up to the first 0 in the
--   memory from the symbol on, whatever stands there.
-- * `Server` is src/hft_server.cpp. `State` has `HFTServer` as a record; `Lifecycle` has
--   `initialize`, `start` and `stop`; `Services` the two services; `Receive` the function
--   `handle_client_events` and the three overloads of `process_client_message`; `Worker` has
--   `accept_connections` and the loop of `worker_thread`. `Content` is the abstract reading of
--   received bytes, `Handling` and `Dispatch` what the services and the dispatch do in its words,
--   `Unterminated` an order whose symbol does not end. `Workers` splits a turn of the receive
--   loop into the `recv` and what follows, and lets the steps of two workers interleave; `Stale`
--   is about an event for a freed connection, `Silence` about what the server writes. The other
--   files have the proofs.
-- * `Client` is src/hft_tcp_client.cpp. `Connect` has `connect`, `disconnect` and the
--   reconnections; `Messages` the messages that it builds; `Send` the queue and the turn of the
--   send thread; `Receive` the handlers and the turn of the receive thread; `Threads` the turns
--   of the heartbeat and the epoll thread, `start` and `stop`; `Latency` the latency statistics;
--   `SendThread` the outer loop of the send thread. `Sharing` lets the receive and the epoll
--   thread, which share one buffer, interleave, and `Interleaving` the threads that queue
--   messages and the send thread. The other files have the proofs.
-- * `LatencyClient` is src/latency_client.cpp: `Link` has `connect` and `disconnect`, `Run` the
--   three tests, `Responses` the receiver, `Percentiles` the percentiles. The other files have
--   the proofs.
-- * `SimpleClient` is src/hft_tcp_client_simple.cpp: `Link` has `connect` and `disconnect`,
--   `Send` the messages and the senders, `Receive` the receive loop and the handlers. `Keeps` and
--   `Life` are about the descriptors, `Orders` about what an order becomes on its way to the
--   server, and `Average` compares the statistics with those of `Client`.
-- * `LoadTest` is src/hft_latency_test_100k.cpp: `State` has `connect` and `disconnect`, `Run`
--   the sending loop, `Responses` the receiving loop, `Statistics` the statistics. `Matching`,
--   `Loop` and `Waiting` are about the receiving loop, `Order` about the statistics.
-- * `SimpleTest` is src/simple_latency_test.cpp: `Run` sends a message and waits for its response
--   in turn, `Statistics` has the statistics, and `Agreement` and `Bags` compare them with
--   `LoadTest`'s.
-- * `Programs` is src/main.cpp: `Numbers` has `std::stoi` and `std::stoul`, `Arguments` the
--   command line, `Server` the signal handler and `main`. `Decimal` and `CommandLine` write what
--   the two read; `Loop` is about the end of `main`, `Service` about what it has started. For
--   src/latency_test_main.cpp it has `LatencyArguments`, `LatencyTest` and `Unsent`. `Options` is
--   the loop over the command line of three more programs. For src/hft_tcp_client_test.cpp
--   `Streams` has `>>` from a string, `Commands` the commands of the interactive mode and
--   `ClientTest` the modes and `main`; `CommandText` and `ClientWords` write commands and
--   settings, `Trades`, `Quiet`, `Modes` and `Endings` are about how the program ends.
--   `SimpleClient` is the `main` of src/hft_tcp_client_simple.cpp, with `Descriptors` about it,
--   and `Measurements` those of src/hft_latency_test_100k.cpp and src/simple_latency_test.cpp.
-- * `System` puts the parts together: `Segments` the queue of the client and the receive loop of
--   the server, `Coalesced` several orders in one `recv`, `Session` the client test program
--   before the queue, `Orders` the simple client program and the server, `Answers` the two test
--   programs and the server that main starts.
-- * `Base` has shared lemmas; `Tests` applies each theorem at a concrete input.
--
-- State is passed from call to call. A system call is an entry in a list of effects, the newest
-- first, and its answer is an argument, so that a theorem holds for every answer that its
-- hypotheses allow. Descriptor -1 is `none`. What a C++ program may not do, a read or a write out
-- of bounds, the use of a freed connection or an assignment to a running thread, is `none`, or an
-- outcome of its own where the function has several. From there on C++ says nothing of the
-- program: a run may well survive it, as those that the test results record, and no theorem says
-- that it stops. Unsigned counters wrap at their width. `double` is a parameter with the
-- operations that the code uses. Clocks and random numbers are arguments.
--
-- The loops over a buffer run on fuel: one turn for each byte and one more, while a turn moves
-- forward by 1064 bytes. The loops over answers of the system are recursions on the list of
-- answers.
--
-- Not modelled: printing, but for the lines of the server that show a symbol, and the output of
-- statistics. But for `Workers`, the events of the server are handled one at a time, and but for
-- `Sharing` and `Interleaving`, no two threads of `HFTTCPClient` are inside a turn at once. In
-- the two client programs the turns of the threads, and in the client test program the signals,
-- stand between the statements of `main`; signals reach the latency test program only in the
-- pause before its test. A pause of `main` shows only in what happens during it.
-- src/hft_server.cpp.backup is an older copy that is not built, and the scripts and generated
-- files of the build are left out.
pub mod Base
pub mod Message
pub mod Server
pub mod Client
pub mod LatencyClient
pub mod SimpleClient
pub mod SimpleTest
pub mod LoadTest
pub mod Programs
pub mod System
pub mod Tests
