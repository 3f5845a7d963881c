-- ===== src/Tests/Server.antt =====
-- The server, at sample answers of the system and sample messages.
use hft.Base.{
  ap, List, ℕ, ◌≡◌, ◌≢◌, refl, ◌⊎◌, true, false, [], ◌∷◌, ◌++◌, some, none, arith, overwrite,
}
use hft.Message.Types.{OrderMessage, new_message, new_order_message}
use hft.Message.Layout.{order_size}
use hft.Message.Codec.{encode_order}
use hft.Server.State.{
  Connection, new_connection, insert, Server, Address, emit, order_received, order_printed,
  new_server, register_service,
}
use hft.Server.Lifecycle.{
  InitAnswers, initialize, start, stop, setup_socket_options, set_non_blocking,
}
use hft.Server.Receive.{receive_chunk, update_stats, chunk, disconnected, would_block}
use hft.Server.Stale.{pointers, stale_event}
use hft.Server.Workers.{receives, processes, run_schedule, fill, taken, IsTaken, shared_buffer}
use hft.Server.Worker.{
  store_connection, client, handle_events, Event, listener, accepted, handle_event,
  accept_connections,
}
use hft.Server.Content.{parse, settle, is_readable}
use hft.Server.Descriptors.{open_fds}
use hft.Server.Refinement.{receive_chunk-parse}
use hft.Server.Delivery.{order_delivered, parse-encode_order, symbol_text-encode_order}
use hft.Server.Ownership.{Inv}
use hft.Server.EventLoop.{Allowed, fresh, live, IsReadableEvent, handle_event-Inv}
use hft.Server.Shutdown.{IsListening, IsShut, initialize_descriptors}
use hft.Server.Run.{started, Reach, here, next, stop_after_run, run-Inv}
use hft.Tests.Samples.{
  server_floats, order_server, order, aapl_text, aapl_ends, priced, priced-IsOrderEncodable,
  order-IsOrderEncodable,
}

-- An order, and a byte more.
abbrev order_bytes : List ℕ
order_bytes = encode_order order ++ 1 ∷ []

order_is_readable : is_readable (parse order_bytes) ≡ true
unfolding new_order_message new_message
order_is_readable = ap is_readable (
    parse-encode_order order (1 ∷ []) aapl_text order-IsOrderEncodable refl
      (symbol_text-encode_order order (1 ∷ []) aapl_text order-IsOrderEncodable aapl_ends))

receive_chunk-parse_example :
    receive_chunk server_floats order_bytes 700 order_server
    ≡ some (
        settle server_floats order_bytes 700
          (parse order_bytes)
          (record order_server { recv_buffer = overwrite order_server.recv_buffer order_bytes }))
receive_chunk-parse_example =
    receive_chunk-parse server_floats order_bytes 700 order_server order_is_readable

order_delivered_example :
    receive_chunk server_floats (encode_order order ++ 1 ∷ []) 700 order_server
    ≡ some (
        update_stats server_floats 700 (
          emit (order_received aapl_text order) (
            emit (order_printed aapl_text order) (record order_server {
              recv_buffer = overwrite order_server.recv_buffer (encode_order order ++ 1 ∷ []);
            }))))
unfolding new_order_message new_message register_service
order_delivered_example =
    order_delivered server_floats 700 order_server order (1 ∷ []) aapl_text order-IsOrderEncodable
      aapl_ends refl (omega arith) refl

abbrev answers : InitAnswers
answers = record {
  socket = some 3;
  bind_ok = true;
  listen_ok = true;
  epoll = some 4;
  ctl_ok = true;
}

abbrev listening : Server ℕ
listening = started server_floats "127.0.0.1" 8888 2 answers

abbrev peer : Address
peer = record { ip = 2130706433; port = 50000 }

abbrev arrival : Event
arrival = listener (accepted 5 peer 4096 1000 true)

abbrev serving : Server ℕ
serving = accept_connections (accepted 5 peer 4096 1000 true) listening

three_is_not_four : answers.socket ≢ answers.epoll
three_is_not_four e = ground arith

initialized : (initialize "127.0.0.1" 8888 2 answers (new_server server_floats)).1 ≡ true
unfolding initialize
initialized = refl

arrival-Allowed : Allowed server_floats listening arrival
unfolding initialize start new_server open_fds setup_socket_options set_non_blocking
arrival-Allowed = fresh 5 peer 4096 1000 true refl refl

one_arrival : Reach server_floats listening serving
unfolding handle_event
one_arrival = next arrival here arrival-Allowed refl

initialize_descriptors_example :
    ((true ≡ false)
      × (open_fds (initialize "127.0.0.1" 8888 2 answers (new_server server_floats)).0.effects
          ≡ open_fds (new_server server_floats).effects))
    ⊎ ((true ≡ true)
        × IsListening answers
            (new_server server_floats)
            (initialize "127.0.0.1" 8888 2 answers (new_server server_floats)).0)
unfolding initialize
initialize_descriptors_example =
    initialize_descriptors "127.0.0.1" 8888 2 answers (new_server server_floats)

stop_after_run_example : IsShut (stop serving)
stop_after_run_example =
    stop_after_run server_floats "127.0.0.1" 8888 2 answers serving initialized three_is_not_four
      one_arrival

run-Inv_example : Inv serving
run-Inv_example =
    run-Inv server_floats "127.0.0.1" 8888 2 answers serving initialized three_is_not_four
      one_arrival

abbrev stored : Connection
unfolding new_connection
stored = record new_connection { fd = some 5; addr = peer; last_heartbeat = 1000; client_id = 4096 }

stale_event_example :
    handle_events server_floats (client 4096 disconnected ∷ client 4096 would_block ∷ []) serving
    ≡ none
unfolding accept_connections store_connection initialize start new_server setup_socket_options
    set_non_blocking pointers insert new_connection
stale_event_example =
    stale_event server_floats 4096 would_block stored serving
      (run-Inv server_floats "127.0.0.1" 8888 2 answers serving initialized three_is_not_four
        one_arrival)
      (omega arith) refl

-- An order arrives from the client.
abbrev order_event : Event
order_event = client 4096 (chunk order_bytes 700 would_block)

order_event-Allowed : Allowed server_floats serving order_event
unfolding accept_connections store_connection initialize start new_server setup_socket_options
    set_non_blocking insert new_connection
order_event-Allowed = live 4096 (chunk order_bytes 700 would_block) stored refl

order_event-IsReadable : IsReadableEvent server_floats order_event
unfolding IsReadableEvent
order_event-IsReadable = (order_is_readable, tt)

handle_event-Inv_example :
    (t : Server ℕ) × (handle_event server_floats order_event serving ≡ some t) × Inv t
handle_event-Inv_example =
    handle_event-Inv server_floats serving order_event
      (run-Inv server_floats "127.0.0.1" 8888 2 answers serving initialized three_is_not_four
        one_arrival)
      order_event-Allowed order_event-IsReadable

abbrev cheaper : OrderMessage
cheaper = priced 140000

order-IsTaken : IsTaken aapl_text order
unfolding new_order_message new_message
order-IsTaken = record {
  encodable = order-IsOrderEncodable;
  is_new = refl;
  is_big = omega arith;
  terminated = aapl_ends;
}

cheaper-IsTaken : IsTaken aapl_text cheaper
unfolding new_order_message new_message
cheaper-IsTaken = record {
  encodable = priced-IsOrderEncodable 140000 (omega arith);
  is_new = refl;
  is_big = omega arith;
  terminated = aapl_ends;
}

shared_buffer_example :
    (run_schedule server_floats
        (receives (encode_order order)
          ∷ processes order_size 700
          ∷ receives (encode_order cheaper)
          ∷ processes order_size 800
          ∷ [])
        order_server
      ≡ some (
          taken server_floats aapl_text cheaper 800 (
            fill
              (encode_order cheaper)
              (taken server_floats aapl_text order 700 (fill (encode_order order) order_server)))))
    × (run_schedule server_floats
          (receives (encode_order order)
            ∷ receives (encode_order cheaper)
            ∷ processes order_size 700
            ∷ processes order_size 800
            ∷ [])
          order_server
        ≡ some (
            taken server_floats aapl_text cheaper 800 (
              taken server_floats aapl_text cheaper 700
                (fill (encode_order cheaper) (fill (encode_order order) order_server)))))
unfolding register_service
shared_buffer_example =
    shared_buffer server_floats aapl_text aapl_text order cheaper 700 800 order_server order-IsTaken
      cheaper-IsTaken refl
