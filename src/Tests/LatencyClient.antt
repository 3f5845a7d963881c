-- ===== src/Tests/LatencyClient.antt =====
-- The latency client, at sample answers of the system.
use hft.Base.{◌⊎◌, ℕ, ◌+◌, ◌/◌, ◌≡◌, refl, true, false, [], ◌∷◌, none, some, arith, if◌then◌else◌}
use hft.Message.Layout.{message_size}
use hft.Client.Connect.{ConnectAnswers}
use hft.LatencyClient.State.{Percentiles, Tester, Percentiles, new_tester}
use hft.LatencyClient.Link.{connect, disconnect}
use hft.LatencyClient.Run.{Turn}
use hft.LatencyClient.Responses.{process_responses}
use hft.LatencyClient.Percentiles.{calculate_percentiles}
use hft.LatencyClient.Matching.{IsMatched, response_times, responses-IsMatched}
use hft.LatencyClient.Closing.{closings, disconnect_after_connect}
use hft.Tests.Samples.{latency_floats}
use hft.LatencyClient.Indices.{IsRising, IsRanked, calculate_percentiles-IsRanked}

-- A client that waits for the responses to two messages.
abbrev waiting : Tester ℕ
unfolding new_tester
waiting = record (new_tester latency_floats) {
  socket_fd = some 3;
  connected = true;
  messages_sent = 2;
  latency_measurements = 100 ∷ 200 ∷ [];
}

responses-IsMatched_example :
    IsMatched
      (response_times (λ at. at + 500) 0 (2200 / message_size))
      waiting
      (process_responses (λ at. at + 500) 2200 waiting)
unfolding new_tester
responses-IsMatched_example =
    responses-IsMatched (λ at. at + 500) 2200 waiting (omega arith) (omega arith)

abbrev refused : ConnectAnswers
refused = record {
  socket = some 6;
  address_ok = true;
  connect_ok = true;
  select_ok = true;
  no_error = false;
}

abbrev after_refusal : Tester ℕ
after_refusal = elim (connect refused (new_tester latency_floats)) [
  | none ↦ new_tester latency_floats
  | some (u, _) ↦ u
]

disconnect_after_connect_example :
    closings 6 (disconnect after_refusal).effects
    ≡ closings 6 (new_tester latency_floats).effects + (if false then 1 else 2)
unfolding connect
disconnect_after_connect_example =
    disconnect_after_connect refused 6 (new_tester latency_floats) after_refusal false refl refl

abbrev turn : Turn
turn = record {
  id = 1;
  now = 50;
  quantity = 100;
  price = 150000;
  symbol = 65 ∷ [];
  send_ns = 60;
  bytes_sent = some message_size;
}

latency_floats-IsRising : IsRising latency_floats
latency_floats-IsRising = record {
  p50_p95 = λ n h. omega arith;
  p95_p99 = λ n h. omega arith;
  p99_p99_9 = λ n h. omega arith;
  p99_9_below = λ n h. omega arith;
}

calculate_percentiles-IsRanked_example :
    ((waiting.latency_measurements ≡ [])
      × (calculate_percentiles latency_floats waiting ≡ some waiting))
    ⊎ ((ps : Percentiles ℕ) × (calculate_percentiles latency_floats waiting
          ≡ some (record waiting { percentiles = ps }))
        × IsRanked latency_floats waiting.latency_measurements ps)
calculate_percentiles-IsRanked_example =
    calculate_percentiles-IsRanked latency_floats latency_floats-IsRising waiting
