-- ===== src/Tests/Programs.antt =====
-- The server program, at sample command lines, signals and answers of the system.
use hft.Base.{ℕ, ◌≡◌, ◌⊎◌, refl, true, false, List, [], ◌∷◌, ◌++◌, some, arith, overwrite}
use hft.Message.Types.{new_message, new_order_message}
use hft.Message.Codec.{encode_order}
use hft.Server.State.{Server, emit, order_received, order_printed, new_server}
use hft.Server.Lifecycle.{InitAnswers, initialize, start, setup_socket_options, set_non_blocking}
use hft.Server.Receive.{receive_chunk, update_stats}
use hft.Server.Worker.{Event, listener, accepted, handle_event, accept_connections}
use hft.Server.Descriptors.{open_fds}
use hft.Server.EventLoop.{Allowed, fresh}
use hft.Server.Run.{Reach, here, next}
use hft.Server.Silence.{sends}
use hft.Programs.Decimal.{decimal}
use hft.Programs.Arguments.{parsed, flag_of, parse_arguments, default_config}
use hft.Programs.CommandLine.{
  Setting, ip, port, threads, unknown, words, IsWritten, configure, parse_arguments-words,
}
use hft.Programs.Server.{
  Turn, interrupt, terminate, Process, undefined, looping, main, started_server, register_services,
}
use hft.Programs.Loop.{interrupted, main_never_returns}
use hft.Programs.Service.{order_delivered_in_service, never_sends}
use hft.Tests.Samples.{server_floats, aapl_text, aapl_ends, order, order-IsOrderEncodable}

abbrev settings : List Setting
settings = port 9000 "9000" ∷ unknown "-v" ∷ ip "0.0.0.0" ∷ threads 2 "2" ∷ port 9001 "9001" ∷ []

settings-IsWritten : IsWritten settings
unfolding IsWritten decimal flag_of
settings-IsWritten = (refl, omega arith, (refl, (refl, omega arith, (refl, omega arith, tt))))

parse_arguments-words_example :
    parse_arguments (words settings) default_config ≡ parsed (configure settings default_config)
parse_arguments-words_example = parse_arguments-words settings default_config settings-IsWritten

abbrev answers : InitAnswers
answers = record {
  socket = some 3;
  bind_ok = true;
  listen_ok = true;
  epoll = some 4;
  ctl_ok = true;
}

-- An interrupt in the second turn.
abbrev turns : List Turn
turns =
    record { events = []; signals = terminate ∷ []; now = 100 }
    ∷ record { events = []; signals = interrupt ∷ []; now = 6000000000 }
    ∷ record { events = []; signals = []; now = 6100000000 }
    ∷ []

main_never_returns_example :
    (main server_floats ("--verbose" ∷ []) answers 0 turns ≡ undefined)
    ⊎ ((q : Process ℕ) × (main server_floats ("--verbose" ∷ []) answers 0 turns ≡ looping q)
        × (interrupted turns ≡ true → q.server.running ≡ false))
unfolding parse_arguments flag_of initialize
main_never_returns_example =
    main_never_returns server_floats ("--verbose" ∷ []) answers 0 turns default_config refl refl

abbrev arrival : Event
arrival = listener (accepted 5 (record { ip = 2130706433; port = 50000 }) 4096 1000 true)

abbrev begun : Server ℕ
begun = started_server server_floats answers default_config

abbrev serving : Server ℕ
serving =
    accept_connections (accepted 5 (record { ip = 2130706433; port = 50000 }) 4096 1000 true) begun

arrival-Allowed : Allowed server_floats begun arrival
unfolding started_server register_services initialize start new_server open_fds setup_socket_options
    set_non_blocking
arrival-Allowed = fresh 5 (record { ip = 2130706433; port = 50000 }) 4096 1000 true refl refl

one_arrival : Reach server_floats begun serving
unfolding handle_event
one_arrival = next arrival here arrival-Allowed refl

order_delivered_in_service_example :
    receive_chunk server_floats (encode_order order ++ 1 ∷ []) 700 serving
    ≡ some (
        update_stats server_floats 700 (
          emit (order_received aapl_text order) (
            emit (order_printed aapl_text order) (record serving {
              recv_buffer = overwrite serving.recv_buffer (encode_order order ++ 1 ∷ []);
            }))))
unfolding new_order_message new_message
order_delivered_in_service_example =
    order_delivered_in_service server_floats answers default_config serving 700 order (1 ∷ [])
      aapl_text one_arrival order-IsOrderEncodable aapl_ends refl (omega arith)

never_sends_example : sends serving.effects ≡ 0
never_sends_example = never_sends server_floats answers default_config serving one_arrival
