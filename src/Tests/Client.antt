-- ===== src/Tests/Client.antt =====
-- The client, at sample answers of the system and sample messages.
use hft.Base.{
  ◌>>=◌, length, ◌+◌, ℕ, zero, ◌≡◌, refl, true, false, [], ◌∷◌, none, some, arith, length,
  length-replicate,
}
use hft.Message.Types.{new_message}
use hft.Base.{◌+◌, All, ◌++◌, if◌then◌else◌}
use hft.Message.Codec.RoundTrip.{IsEncodable}
use hft.Client.Receive.{process_received_data, process_message, emit_if}
use hft.Client.Life.{Run, here, next, connects, disconnects, life-Inv}
use hft.Client.Framing.{encode_all, handle_all, process_received_data-encode_all}
use hft.Client.Handlers.{casts, process_message-casts}
use hft.Client.State.{message_handled, Client, new_client, reset_stats}
use hft.Client.Connect.{ConnectAnswers, connect, disconnect}
use hft.Client.Send.{drain_queue}
use hft.Client.Connection.{Inv}
use hft.Client.Queue.{all_sent, send_all, sent_log, count_many, queue_fifo}
use hft.Client.Statistics.{IsSummary, update_all, statistics_of_run}
use hft.Client.Sharing.{Shared, receives, processes, run_schedule, handled, shared_receive_buffer}
use hft.Tests.Samples.{
  later, later-IsEncodable, heartbeat-IsEncodable, client_floats, online, heartbeat, plain_order,
}

queue_fifo_example :
    drain_queue
      (all_sent (heartbeat ∷ plain_order ∷ []))
      (send_all (heartbeat ∷ plain_order ∷ []) online)
    ≡ record online {
      send_queue = [];
      stats =
          count_many
            (heartbeat ∷ plain_order ∷ [])
            (count_many (heartbeat ∷ plain_order ∷ []) online.stats);
      effects = sent_log 3 (heartbeat ∷ plain_order ∷ []) online.effects;
    }
unfolding new_client
queue_fifo_example = queue_fifo (heartbeat ∷ plain_order ∷ []) 3 online refl refl refl

statistics_of_run_example :
    IsSummary
      (30 ∷ 10 ∷ 20 ∷ [])
      (update_all client_floats (30 ∷ 10 ∷ 20 ∷ []) (reset_stats client_floats 5 online))
statistics_of_run_example = statistics_of_run client_floats 5 (30 ∷ 10 ∷ 20 ∷ []) online

-- "AAPL"
abbrev accepting : ConnectAnswers
accepting = record {
  socket = some 6;
  address_ok = true;
  connect_ok = true;
  select_ok = true;
  no_error = true;
}

abbrev refusing : ConnectAnswers
refusing = record accepting { no_error = false }

abbrev offline : Client ℕ
offline = new_client client_floats 1 0

heartbeats-IsEncodable : All IsEncodable (heartbeat ∷ heartbeat ∷ [])
heartbeats-IsEncodable = (heartbeat-IsEncodable, (heartbeat-IsEncodable, tt))

process_received_data-encode_all_example :
    process_received_data client_floats
      (λ at. at + 2000)
      (encode_all (heartbeat ∷ heartbeat ∷ []) ++ 1 ∷ 2 ∷ [])
      online
    ≡ handle_all client_floats (λ at. at + 2000) 0 (heartbeat ∷ heartbeat ∷ []) online
process_received_data-encode_all_example =
    process_received_data-encode_all client_floats (λ at. at + 2000) (heartbeat ∷ heartbeat ∷ [])
      (1 ∷ 2 ∷ []) online heartbeats-IsEncodable (omega arith)

abbrev shared : Shared ℕ
shared = record { client = online; recv_buffer = [] }

shared_receive_buffer_example :
    (run_schedule client_floats
        (receives (encode_all (heartbeat ∷ []))
          ∷ processes (length (encode_all (heartbeat ∷ []))) 500 (λ at. at + 2000)
          ∷ receives (encode_all (later ∷ []))
          ∷ processes (length (encode_all (later ∷ []))) 600 (λ at. at + 3000)
          ∷ [])
        shared
      ≡ (handled client_floats 500 (λ at. at + 2000) (heartbeat ∷ []) online
          >>= handled client_floats 600 (λ at. at + 3000) (later ∷ [])))
    × (run_schedule client_floats
          (receives (encode_all (heartbeat ∷ []))
            ∷ receives (encode_all (later ∷ []))
            ∷ processes (length (encode_all (heartbeat ∷ []))) 500 (λ at. at + 2000)
            ∷ processes (length (encode_all (later ∷ []))) 600 (λ at. at + 3000)
            ∷ [])
          shared
        ≡ (handled client_floats 500 (λ at. at + 2000) (later ∷ []) online
            >>= handled client_floats 600 (λ at. at + 3000) (later ∷ [])))
shared_receive_buffer_example =
    shared_receive_buffer client_floats 500 600 (λ at. at + 2000) (λ at. at + 3000) (heartbeat ∷ [])
      (later ∷ []) shared (heartbeat-IsEncodable, tt) (later-IsEncodable, tt) refl

process_message-casts_example : process_message plain_order online ≡ (
    if casts plain_order.message_type plain_order.payload_size
    then none
    else some (emit_if online.has_message_handler (message_handled plain_order) online))
unfolding new_message
process_message-casts_example =
    process_message-casts plain_order online (length-replicate 1024 zero)

abbrev reconnected : Client ℕ
reconnected = (connect accepting (disconnect (connect accepting offline).0)).0

life : Run client_floats offline reconnected
life = next (next (next here (connects accepting)) disconnects) (connects accepting)

life-Inv_example : Inv reconnected
life-Inv_example = life-Inv client_floats 1 0 reconnected life
