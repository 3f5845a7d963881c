-- ===== src/Tests/System.antt =====
-- Client and server, and the latency tests with the server, at sample messages.
use hft.Base.{ℕ, ◌+◌, ◌%◌, ◌^◌, ◌≡◌, refl, true, List, [], ◌∷◌, ◌++◌, some, All, arith, length}
use hft.Message.Types.{Message, new_message, new_order_message}
use hft.Server.State.{Server, Connection, new_server, new_connection}
use hft.Server.Receive.{receive_loop}
use hft.Server.Lifecycle.{InitAnswers}
use hft.Server.Run.{here}
use hft.Client.Connect.{ConnectAnswers}
use hft.Client.State.{Client, new_client}
use hft.Client.Send.{drain_queue}
use hft.Client.Queue.{all_sent, send_all}
use hft.LoadTest.Run as LoadRun
use hft.LoadTest.State.{connect}
use hft.LoadTest.Responses.{RecvAnswer, nothing, Receiving}
use hft.LoadTest.Loop.{IsOnline}
use hft.SimpleTest.Run.{SimpleTest, Turn, silence}
use hft.Programs.Arguments.{codes, default_config}
use hft.Programs.Server.{started_server}
use hft.Programs.Options.{parse_options, load_option}
use hft.Programs.Measurements.{waits, load_main, simple_main, message_count}
use hft.System.Segments.{
  group_bytes, IsPlain, Group, messages, segments, all_bytes, wire, queued-segments,
}
use hft.Client.Messages.{heartbeat_request}
use hft.Programs.Commands.{parse_command}
use hft.Programs.ClientTest.{Line, run_commands}
use hft.System.Session.{IsHeartbeatLine, typed_heartbeats}
use hft.Programs.SimpleClient.{Session, send_turns}
use hft.Programs.SimpleClient as Simple
use hft.SimpleClient.State.{new_simple_client}
use hft.Message.Codec.{
  encode_message, encode_base, put, encode_order, encode_order_fields, decode_message, decode_base,
  get, get_bytes, decode_order, decode_order_fields,
}
use hft.Message.Bytes.{
  type_of_byte, status_of_byte, side_of_byte, order_type_of_byte, force_of_byte,
}
use hft.Message.Symbol.{symbol_text}
use hft.SimpleClient.Send.{order_request, create_test_order}
use hft.Server.Content.{parse, is_readable}
use hft.System.Coalesced.{coalesced}
use hft.System.Orders.{
  order_messages, IsSmooth, order_bytes, arrivals, sends_after, incompletes,
  orders_sent_and_not_counted,
}
use hft.Tests.SimpleClient.{simple}
use hft.System.Answers.{AllLive, any_whole, bytes_in, bytes_out, replied, tests_never_end}
use hft.Tests.Samples.{
  client_floats, heartbeat, later, heartbeat-IsEncodable, later-IsEncodable, server_floats,
  client_floats, online,
}
use hft.Tests.LoadTest.{floats, turn}

-- Two messages in one group, and one in another.
abbrev groups : List Group
groups = (heartbeat, later ∷ []) ∷ (later, []) ∷ []

groups-IsPlain : All (λ (g : Group). IsPlain g.0) groups
unfolding new_message
groups-IsPlain = (
  record { encodable = heartbeat-IsEncodable; no_order = refl; no_market_data = refl },
  (record { encodable = later-IsEncodable; no_order = refl; no_market_data = refl }, tt),
)

abbrev server : Server ℕ
server = new_server server_floats

abbrev connection : Connection
unfolding new_connection
connection = new_connection

queued-segments_example :
    (wire 3 (drain_queue (all_sent (messages groups)) (send_all (messages groups) online)).effects
      ≡ wire 3 online.effects ++ all_bytes groups)
    × ((t : Server ℕ) × (receive_loop server_floats connection (segments 700 groups) server
          ≡ some t)
        × (t.stats.total_messages_processed
            ≡ (server.stats.total_messages_processed + length groups) % 2 ^ 64)
        × (t.effects ≡ server.effects))
unfolding new_client new_server
queued-segments_example =
    queued-segments server_floats groups 3 700 online connection server groups-IsPlain refl refl
      refl (omega arith)

abbrev begins : InitAnswers
begins = record { socket = some 3; bind_ok = true; listen_ok = true; epoll = some 4; ctl_ok = true }

abbrev joins : ConnectAnswers
joins = record {
  socket = some 6;
  address_ok = true;
  connect_ok = true;
  select_ok = true;
  no_error = true;
}

-- Three turns of the load test, and two pings of the simple test.
abbrev load_turns : ℕ → LoadRun.Turn
load_turns i = turn (100 + i)

abbrev pings : ℕ → Turn
pings i = record {
  now = 100;
  send_ns = 100 + i;
  bytes_sent = some 1064;
  reply = silence;
  receive_ns = 0;
}

abbrev no_responses : List RecvAnswer
no_responses = nothing ∷ nothing ∷ []

no_responses-IsOnline : IsOnline no_responses
unfolding IsOnline
no_responses-IsOnline = tt

tests_never_end_example :
    ((v : Receiving) × (load_main floats ("--messages" ∷ "3" ∷ []) joins load_turns no_responses
        ≡ waits v)
      × (v.test.latency_measurements ≡ []))
    × ((u : SimpleTest) × (simple_main floats ("2" ∷ []) (some 5) true pings ≡ waits u))
unfolding parse_options load_option connect message_count AllLive any_whole bytes_in bytes_out
    replied started_server
tests_never_end_example =
    tests_never_end server_floats floats begins default_config _ here ("--messages" ∷ "3" ∷ [])
      (record { server_ip = "127.0.0.1"; server_port = 8888; num_messages = 3 }) joins load_turns
      no_responses refl refl (omega arith) no_responses-IsOnline (omega arith) ("2" ∷ []) 2 5 pings
      refl (tt, (tt, tt)) (omega arith) refl

-- Two lines, whose heartbeats arrive together.
abbrev asking : ℕ → List ℕ → Line client_floats
asking n text = record {
  turn = record {
    events = [];
    draws = record { id = 0; now = 0; second_draw = 0; request_id = n; request_now = 1000 + n };
  };
  text = text;
}

abbrev typed : List (Line client_floats)
typed = asking 1 (codes "h") ∷ asking 2 (codes "heartbeat") ∷ []

typed-IsHeartbeatLine : All (IsHeartbeatLine client_floats) typed
unfolding parse_command
typed-IsHeartbeatLine = (
  record { asks = refl; alone = refl; id_fits = omega arith; now_fits = omega arith },
  (record { asks = refl; alone = refl; id_fits = omega arith; now_fits = omega arith }, tt),
)

abbrev together : List Group
together = (heartbeat_request 1 1001 1, heartbeat_request 2 1002 1 ∷ []) ∷ []

typed_heartbeats_example :
    (d : Client ℕ) × (run_commands client_floats typed online ≡ some d)
    × (wire 3 (drain_queue (all_sent (messages together)) d).effects
        ≡ wire 3 online.effects ++ all_bytes together)
    × ((t : Server ℕ) × (receive_loop server_floats connection (segments 700 together) server
          ≡ some t)
        × (t.stats.total_messages_processed
            ≡ (server.stats.total_messages_processed + length together) % 2 ^ 64)
        × (t.effects ≡ server.effects))
unfolding new_client new_server
typed_heartbeats_example =
    typed_heartbeats client_floats server_floats together typed 3 700 online connection server
      typed-IsHeartbeatLine refl (omega arith) refl refl refl (omega arith)

abbrev smooth_turns : ℕ → Simple.Turn
smooth_turns i = record {
  answers = [];
  id = 7;
  now = 100;
  client_order_id = 4;
  request_id = 5;
  request_now = 110;
  bytes_sent = some 1064;
}

abbrev begun : Session ℕ
begun = record { client = simple; receiving = true }

smooth_turns-IsSmooth : (j : ℕ) → IsSmooth (smooth_turns j)
smooth_turns-IsSmooth j = record {
  quiet = refl;
  id_fits = omega arith;
  now_fits = omega arith;
  whole = refl;
}

-- The first two orders come with one `recv`.
abbrev sent_orders : List Message
sent_orders = order_messages 7 3 0 smooth_turns

abbrev in_two : List Group
in_two = elim sent_orders [
  | m ∷ m' ∷ ms ↦ (m, m' ∷ []) ∷ elim ms [ [] ↦ [] | n ∷ ns ↦ (n, ns) ∷ [] ]
  | _ ↦ []
]

in_two-readable : All (λ (g : Group). is_readable (parse (group_bytes g)) ≡ true) in_two
unfolding parse encode_message encode_base put order_request encode_order encode_order_fields
    create_test_order new_order_message new_message decode_message decode_base get get_bytes
    decode_order decode_order_fields type_of_byte status_of_byte side_of_byte order_type_of_byte
    force_of_byte symbol_text
in_two-readable = (refl, (refl, tt))

orders_sent_and_not_counted_example :
    ((u : Session ℕ) × (send_turns client_floats 3 0 smooth_turns begun ≡ some u)
      × (u.client.effects ≡ sends_after 3 (order_bytes 7 3 0 smooth_turns) simple.effects)
      × (u.client.stats.messages_sent ≡ (simple.stats.messages_sent + 3) % 2 ^ 64))
    × ((t : Server ℕ) × (receive_loop server_floats connection
            (arrivals 700 (order_bytes 7 3 0 smooth_turns))
            server
          ≡ some t)
        × (t.stats ≡ server.stats)
        × (t.effects ≡ incompletes 3 server.effects))
    × ((t : Server ℕ) × (receive_loop server_floats connection (segments 700 in_two) server
          ≡ some t)
        × (t.stats.total_messages_processed
            ≡ (server.stats.total_messages_processed + coalesced in_two) % 2 ^ 64))
unfolding new_simple_client new_server
orders_sent_and_not_counted_example =
    orders_sent_and_not_counted client_floats server_floats 3 0 3 700 smooth_turns begun connection
      server in_two smooth_turns-IsSmooth (omega arith) refl refl refl (omega arith) (omega arith)
      refl in_two-readable
