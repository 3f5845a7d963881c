-- ===== src/Tests/LoadTest.antt =====
-- The latency tests with statistics of their own, at sample clocks and answers of the system.
use Prim.Native.Nat.{min}
use hft.Base.{
  Option, ℕ, ◌+◌, ◌*◌, ◌/◌, ◌≡◌, List, [], ◌∷◌, ◌++◌, some, arith, length, leb, ltb, if◌then◌else◌,
}
use hft.LatencyClient.Matching.{latencies}
use hft.LoadTest.State.{LoadTest, new_load_test}
use hft.LoadTest.Run.{Turn}
use hft.LoadTest.Responses.{
  RecvAnswer, received, nothing, Receiving, waiting, finished, run_latency_test,
}
use hft.LoadTest.Loop.{IsOnline, all_times}
use hft.LoadTest.Waiting.{times_of, responses, run_latency_test-latencies}
use hft.LoadTest.Statistics.{Floats, Statistics, calculate_statistics}
use hft.LoadTest.Statistics as LoadStatistics
use hft.SimpleTest.Statistics as SimpleStatistics
use mathlib.Core.List.{Permᴰ}
use mathlib.Core.Quot.{Quot}
use native.Mathlib.Nat.{ℕ_set}
use hft.SimpleTest.Bags.{statistics_of_bag}
use hft.LoadTest.Order.{IsRising, IsOrdered, calculate_statistics-IsOrdered}

abbrev pub turn : ℕ → Turn
turn send_ns = record {
  id = 1;
  now = 100;
  quantity = 10;
  price = 15000;
  client_order_id = 2;
  symbol = 65 ∷ [];
  send_ns = send_ns;
  bytes_sent = some 1064;
}

abbrev turns : List Turn
turns = turn 100 ∷ turn 200 ∷ turn 300 ∷ []

-- Two responses and a part of a third.
abbrev answers : List RecvAnswer
answers = nothing ∷ received 2200 (λ at. at + 500) ∷ nothing ∷ []

abbrev test : LoadTest
unfolding new_load_test
test = record new_load_test { socket_fd = some 3 }

answers-IsOnline : IsOnline answers
unfolding IsOnline
answers-IsOnline = tt

run_latency_test-latencies_example :
    (v : Receiving) × (run_latency_test turns answers test ≡ (
      if leb (length test.send_times + length turns) (responses answers)
      then finished v
      else waiting v))
    × (v.test.latency_measurements
        ≡ latencies (all_times answers) (test.send_times ++ times_of turns))
    × (v.messages_received ≡ min (responses answers) (length test.send_times + length turns))
run_latency_test-latencies_example = run_latency_test-latencies turns answers test answers-IsOnline

-- Whole numbers in the place of `double`.
abbrev pub floats : Floats ℕ
floats = record {
  of_count = λ n. n;
  divide = λ a b. a / b;
  is_less = λ a b. ltb a b;
  p50_index = λ n. n / 2;
  p90_index = λ n. n * 9 / 10;
  p95_index = λ n. n * 95 / 100;
  p99_index = λ n. n * 99 / 100;
  p99_9_index = λ n. n * 999 / 1000;
}

floats-IsRising : IsRising floats
floats-IsRising = record {
  p50_p90 = λ n some_left. omega arith;
  p90_p95 = λ n some_left. omega arith;
  p95_p99 = λ n some_left. omega arith;
  p99_p99_9 = λ n some_left. omega arith;
  p99_9_below = λ n some_left. omega arith;
}

calculate_statistics-IsOrdered_example :
    (st : Statistics ℕ) × (calculate_statistics floats (700 ∷ 300 ∷ 900 ∷ []) ≡ some (some st))
    × IsOrdered (700 ∷ 300 ∷ 900 ∷ []) st
calculate_statistics-IsOrdered_example =
    calculate_statistics-IsOrdered floats floats-IsRising 700 (300 ∷ 900 ∷ [])

statistics_of_bag_example :
    (f : Quot Permᴰ → Option (Option (Statistics ℕ))) × ((l : List ℕ)
      → LoadStatistics.calculate_statistics floats l ≡ f (Quot.mk l))
    × ((l : List ℕ) → SimpleStatistics.calculate_statistics floats l ≡ f (Quot.mk l))
statistics_of_bag_example = statistics_of_bag floats ℕ_set
