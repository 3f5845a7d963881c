-- ===== src/Programs/Measurements.antt =====
-- src/hft_latency_test_100k.cpp and src/simple_latency_test.cpp: `main` of each. What the clocks, the
-- random generator and the system give is an argument.
use Prim.Native.String.{String}
use hft.Base.{ℕ, Bool, true, false, List, [], ◌∷◌, Option, none, some, tabulate}
use hft.Client.Connect.{ConnectAnswers}
use hft.LoadTest.State.{LoadTest, new_load_test}
use hft.LoadTest.State as LoadState
use hft.LoadTest.Run as LoadRun
use hft.LoadTest.Responses.{
  RecvAnswer, Receiving, waiting, finished, cut_off, fault, run_latency_test,
}
use hft.LoadTest.Statistics.{Floats, Statistics}
use hft.LoadTest.Statistics as LoadStatistics
use hft.SimpleTest.Run.{
  SimpleTest, Turn, measured, blocked, new_simple_test, connect, disconnect, run_test,
}
use hft.SimpleTest.Statistics.{calculate_statistics}
use hft.Programs.Numbers.{to_size}
use hft.Programs.Arguments.{codes}
use hft.Programs.Options.{
  LoadConfig, load_defaults, load_option, configured, usage_shown, uncaught_exception,
  parse_options,
}

-- How the first program ends: with `--help`, by an exception, with undefined behaviour, with a code and what was
-- found, or not at all, in the loop that waits for responses.
pub data LoadEnding (D : Type 0) : Type 0 where
  helped aborted undefined : LoadEnding D
  waits : Receiving → LoadEnding D
  returned : ℕ → Option (Statistics D) → LoadTest → LoadEnding D

-- How the second one ends; it may wait in `recv`.
pub data SimpleEnding (D : Type 0) : Type 0 where
  aborted undefined : SimpleEnding D
  waits : SimpleTest → SimpleEnding D
  returned : ℕ → Option (Statistics D) → SimpleTest → SimpleEnding D

-- The number of messages: the first argument, if there is one.
unfoldable pub message_count : List String → Option ℕ
unfolding to_size
message_count [] = some 10000
message_count (arg ∷ args) = to_size (codes arg)

module _ {D : Type 0} (F : Floats D) where
  -- The responses are measured and the socket closed, at `receive_responses` left in one of its ways.
  conclude : Receiving → LoadEnding D
  unfolding LoadStatistics.calculate_statistics LoadState.disconnect
  conclude r = elim (LoadStatistics.calculate_statistics F r.test.latency_measurements) [
    | none ↦ undefined
    | some found ↦ returned 0 found (LoadState.disconnect r.test)
  ]

  unfoldable pub load_test_server :
      LoadConfig → ConnectAnswers → (ℕ → LoadRun.Turn) → List RecvAnswer → LoadEnding D
  unfolding conclude
  load_test_server config a turns answers =
      let (t, ok) = LoadState.connect a new_load_test in
      elim ok [
        | false ↦ returned 1 none t
        | true ↦ elim (run_latency_test (tabulate config.num_messages turns) answers t) [
          | waiting r ↦ waits r
          | finished r ↦ conclude r
          | cut_off r ↦ conclude r
          | fault ↦ undefined
        ]
      ]

  -- `main` of the first program, with the arguments after its name.
  unfoldable pub load_main :
      List String → ConnectAnswers → (ℕ → LoadRun.Turn) → List RecvAnswer → LoadEnding D
  unfolding load_test_server
  load_main args a turns answers = elim (parse_options load_option args load_defaults) [
    | usage_shown ↦ helped
    | uncaught_exception ↦ aborted
    | configured config ↦ load_test_server config a turns answers
  ]

  unfoldable pub simple_test_server : ℕ → Option ℕ → Bool → (ℕ → Turn) → SimpleEnding D
  unfolding connect disconnect
  simple_test_server num_messages socket connect_ok turns =
      let (t, ok) = connect socket connect_ok new_simple_test in
      elim ok [
        | false ↦ returned 1 none t
        | true ↦ elim (run_test (tabulate num_messages turns) t) [
          | blocked latencies u ↦ waits u
          | measured latencies u ↦ elim (calculate_statistics F latencies) [
            | none ↦ undefined
            | some found ↦ returned 0 found (disconnect u)
          ]
        ]
      ]

  -- `main` of the second program.
  unfoldable pub simple_main : List String → Option ℕ → Bool → (ℕ → Turn) → SimpleEnding D
  unfolding message_count simple_test_server
  simple_main args socket connect_ok turns = elim (message_count args) [
    | none ↦ aborted
    | some num_messages ↦ simple_test_server num_messages socket connect_ok turns
  ]
