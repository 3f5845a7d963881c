-- ===== src/Programs/LatencyTest.antt =====
-- src/latency_test_main.cpp: `signal_handler` and `main`. What the clocks, the random generator and
-- the system give to the tests is an argument. Of the signals those are modelled that arrive in the
-- pause after `connect`.
use Prim.Native.String.{String}
use text.Mathlib.Text.{◌==◌}
use hft.Base.{tabulate, ℕ, true, false, List, [], ◌∷◌, Option, none, some, if◌then◌else◌}
use hft.Client.Connect.{ConnectAnswers}
use hft.LatencyClient.State.{Tester, Floats, slept_ms, emit, new_tester}
use hft.LatencyClient.Link.{connect, disconnect}
use hft.LatencyClient.Run.{Turn, run_latency_test, run_burst_test, run_sustained_test}
use hft.Programs.Server.{Signal, interrupt, terminate}
use hft.Programs.LatencyArguments.{
  LatencyConfig, latency_defaults, configured, usage_shown, uncaught_exception,
  parse_latency_arguments,
}

-- What the clocks, the random generator and `send` give to each turn of a test, and the clock when
-- the sustained one starts and before each of its turns.
pub record Load : Type 0 where
  pub turns : ℕ → Turn
  pub bursts : ℕ → ℕ → Turn  -- by the burst and the message in it
  pub start_ns : ℕ
  pub timed_turns : List (ℕ × Turn)

-- A test that ends, one whose behaviour C++ leaves undefined, or a type that is none of the three.
pub data Tested (D : Type 0) : Type 0 where
  done : Tester D → Tested D
  test_undefined unknown_type : Tested D

-- How the program ends: with `--help`, by an exception, or with a code and the client after its
-- destructor. From `undefined` on, C++ says nothing of what follows.
pub data Ending (D : Type 0) : Type 0 where
  helped aborted undefined : Ending D
  returned : ℕ → Tester D → Ending D

module _ {D : Type 0} where
  -- `g_client` is set before the handler is.
  unfoldable pub interrupt_test : List Signal → Tester D → Tester D
  interrupt_test [] t = t
  interrupt_test (interrupt ∷ xs) t = interrupt_test xs (disconnect t)
  interrupt_test (terminate ∷ xs) t = interrupt_test xs t

  abbrev pub ended : Option (Tester D) → Tested D
  ended none = test_undefined
  ended (some t) = done t

  unfoldable pub run_test : Load → LatencyConfig → Tester D → Tested D
  unfolding run_latency_test run_burst_test run_sustained_test
  run_test load c t =
      if c.test_type == "latency"
      then ended (run_latency_test c.message_interval_ms (tabulate c.num_messages load.turns) t)
      else if c.test_type == "burst"
      then ended (
          run_burst_test c.burst_interval_ms
            (tabulate c.num_bursts (λ k. tabulate c.burst_size (load.bursts k))) t)
      else if c.test_type == "sustained"
      then ended (
          run_sustained_test load.start_ns c.duration_seconds c.messages_per_second load.timed_turns
            t)
      else unknown_type

module _ {D : Type 0} (F : Floats D) where
  -- From the client's constructor to its destructor, which disconnects.
  unfoldable pub test_server : ConnectAnswers → List Signal → Load → LatencyConfig → Ending D
  unfolding interrupt_test run_test
  test_server a signals load c = elim (connect a (new_tester F)) [
    | none ↦ undefined
    | some (t, false) ↦ returned 1 (disconnect t)
    | some (t, true) ↦
        let rested = interrupt_test signals (emit (slept_ms 100) t) in
        elim (run_test load c rested) [
          | unknown_type ↦ returned 1 (disconnect rested)
          | test_undefined ↦ undefined
          | done u ↦ returned 0 (disconnect (disconnect u))
        ]
  ]

  -- `main`, with the arguments after the program's name.
  unfoldable pub latency_main : List String → ConnectAnswers → List Signal → Load → Ending D
  unfolding test_server
  latency_main args a signals load = elim (parse_latency_arguments args latency_defaults) [
    | usage_shown ↦ helped
    | uncaught_exception ↦ aborted
    | configured c ↦ test_server a signals load c
  ]
