-- ===== src/System/Answers.antt =====
-- src/hft_latency_test_100k.cpp and src/simple_latency_test.cpp with the server that src/main.cpp
-- starts: what the two tests measure of it.
use Prim.Native.String.{String}
use hft.Client.Connect.{ConnectAnswers}
use hft.LoadTest.State.{new_load_test}
use hft.LoadTest.State as LoadState
use hft.LoadTest.Statistics as LoadStatistics
use hft.Programs.Options.{LoadConfig, load_option, load_defaults, configured, parse_options}
use hft.Programs.Measurements.{
  waits, message_count, load_main, load_test_server, simple_main, simple_test_server,
}
use hft.Base.{
  tabulate, length-tabulate, ℕ, suc, ◌+◌, ◌≤◌, ◌<◌, ◌≡◌, refl, ◌∙◌, true, false, ◌||◌, inl, inr,
  Bool, List, [], ◌∷◌, ◌++◌, some, arith, length, Bool-cases,
}
use hft.Server.State.{Server, Floats}
use hft.Server.State as ServerState
use hft.Server.Lifecycle.{InitAnswers}
use hft.Server.Run.{Reach}
use hft.Server.Silence.{sends}
use hft.Programs.Arguments.{Config}
use hft.Programs.Server.{started_server}
use hft.Programs.Service.{never_sends}
use hft.LatencyClient.Matching.{latencies}
use hft.LoadTest.State.{LoadTest}
use hft.LoadTest.Run as LoadRun
use hft.LoadTest.Responses.{
  RecvAnswer, received, nothing, Receiving, waiting, finished, run_latency_test,
}
use hft.LoadTest.Responses as LoadResponses
use hft.LoadTest.Loop.{IsOnline, all_times}
use hft.LoadTest.Waiting.{responses, times_of, length-all_times, run_latency_test-latencies}
use hft.SimpleTest.Run.{
  SimpleTest, Turn, Reply, silence, Outcome, measured, blocked, is_whole, put_on_wire, ping,
  run_turns, run_test,
}
use hft.SimpleTest.Run as SimpleRun

-- How many bytes the server has written.
unfoldable pub bytes_out : List ServerState.Effect → ℕ
bytes_out [] = 0
bytes_out (ServerState.sent fd bs ∷ es) = length bs + bytes_out es
bytes_out (_ ∷ es) = bytes_out es

-- How many bytes the load test has received.
unfoldable pub bytes_in : List RecvAnswer → ℕ
bytes_in [] = 0
bytes_in (received n clock ∷ answers) = n + bytes_in answers
bytes_in (_ ∷ answers) = bytes_in answers

-- How many bytes the simple test has received.
unfoldable pub replied : List Turn → ℕ
replied [] = 0
replied (x ∷ xs) =
    (elim x.reply [ SimpleRun.received n ↦ n | SimpleRun.failed ↦ 0 | silence ↦ 0 ]) + replied xs

bytes_out-silent : (es : List ServerState.Effect) → sends es ≡ 0 → bytes_out es ≡ 0
unfolding bytes_out sends
bytes_out-silent [] h = refl
bytes_out-silent (ServerState.sent fd bs ∷ es) h = absurd (omega arith)
bytes_out-silent (_ ∷ es) h = bytes_out-silent es h

responses-bytes_in : (answers : List RecvAnswer) → responses answers ≤ bytes_in answers
unfolding responses bytes_in
responses-bytes_in [] = omega arith
responses-bytes_in (received n clock ∷ answers) = omega (arith, responses-bytes_in answers)
responses-bytes_in (nothing ∷ answers) = responses-bytes_in answers
responses-bytes_in (LoadResponses.closed_by_server ∷ answers) = responses-bytes_in answers
responses-bytes_in (LoadResponses.failed ∷ answers) = responses-bytes_in answers

latencies_of_none : (rs pending : List ℕ) → length rs ≡ 0 → latencies rs pending ≡ []
latencies_of_none [] pending h = refl
latencies_of_none (r ∷ rs) pending h = absurd (omega arith)

-- `recv` does not fail, and the server does not close the connection.
abbrev pub IsLive : Reply → Type 0
IsLive (SimpleRun.received n) = 0 < n
IsLive SimpleRun.failed = ⊥
IsLive silence = Unit

unfoldable pub AllLive : List Turn → Type 0
AllLive [] = Unit
AllLive (x ∷ xs) = IsLive x.reply × AllLive xs

-- Whether one of the messages is sent whole.
unfoldable pub any_whole : List Turn → Bool
any_whole [] = false
any_whole (x ∷ xs) = is_whole x.bytes_sent || any_whole xs

run_turns-blocked :
    (i : ℕ) (xs : List Turn) (t : SimpleTest)
    → AllLive xs
    → replied xs ≡ 0
    → any_whole xs ≡ true
    → (u : SimpleTest) × (run_turns i xs [] t ≡ blocked [] u)
unfolding run_turns AllLive replied any_whole
run_turns-blocked i [] t live none_in h = absurd (cc h)
run_turns-blocked i (x ∷ xs) t (live, lives) none_in h = elim (Bool-cases (is_whole x.bytes_sent)) [
  | inr partly ↦
      let (u, run) =
        run_turns-blocked (suc i) xs after lives (omega arith) (ground (arith, h, partly)) in
      (u, ground (arith, partly, run))
  | inl whole ↦ (after, ground (arith, whole, quiet))
]
  where
    after : SimpleTest
    after = put_on_wire (ping i x.now) x.bytes_sent t

    no_bytes :
        (r : Reply)
        → IsLive r
        → (elim r [ SimpleRun.received n ↦ n | SimpleRun.failed ↦ 0 | silence ↦ 0 ]) ≡ 0
        → r ≡ silence
    no_bytes (SimpleRun.received n) l e = absurd (omega arith)
    no_bytes SimpleRun.failed l e = absurd l
    no_bytes silence l e = refl

    quiet : x.reply ≡ silence
    quiet = no_bytes x.reply live (omega arith)

module _ {D E : Type 0} (F : Floats D) (G : LoadStatistics.Floats E) where
  -- The server that main starts is at some point of its run, and the tests receive no more bytes
  -- than it has written. Both test programs read their arguments and connect, and no `recv` of
  -- theirs fails or finds the connection closed. Then neither ends: the first, with a message to
  -- send, waits for responses with no latency measured; the second, one of whose messages is sent
  -- whole, waits in `recv`.
  pub tests_never_end :
      (a : InitAnswers) (c : Config) (t : Server D)
      → Reach F (started_server F a c) t
      → (args : List String) (config : LoadConfig) (link : ConnectAnswers)
        (turns : ℕ → LoadRun.Turn) (answers : List RecvAnswer)
      → parse_options load_option args load_defaults ≡ configured config
      → (LoadState.connect link new_load_test).1 ≡ true
      → 0 < config.num_messages
      → IsOnline answers
      → bytes_in answers ≤ bytes_out t.effects
      → (args' : List String) (n fd : ℕ) (turns' : ℕ → Turn) → message_count args' ≡ some n
      → AllLive (tabulate n turns')
      → replied (tabulate n turns') ≤ bytes_out t.effects
      → any_whole (tabulate n turns') ≡ true
      → ((v : Receiving) × (load_main G args link turns answers ≡ waits v)
          × (v.test.latency_measurements ≡ []))
        × ((u : SimpleTest) × (simple_main G args' (some fd) true turns' ≡ waits u))
  unfolding load_main load_test_server simple_main simple_test_server run_test new_load_test
  tests_never_end a c t r args config link turns answers read linked some_sent on fed args' n fd
        turns' read' live fed' whole =
      let silent = bytes_out-silent t.effects (never_sends F a c t r) in
      let none_in : responses answers ≡ 0 =
        omega (arith, responses-bytes_in answers, fed, silent) in
      let load = (LoadState.connect link new_load_test).0 in
      let xs = tabulate config.num_messages turns in
      let (v, run, lat, count) = run_latency_test-latencies xs answers load on in
      let simple = (SimpleRun.connect (some fd) true SimpleRun.new_simple_test).0 in
      let (u, run') =
        run_turns-blocked 0 (tabulate n turns') simple live (omega (arith, fed', silent)) whole in
      (
        (
          v,
          ground (
            arith,
            read,
            linked,
            run,
            none_in,
            some_sent,
            length-tabulate config.num_messages turns,
          ),
          lat
              ∙ latencies_of_none (all_times answers) (load.send_times ++ times_of xs)
                  (length-all_times answers ∙ none_in),
        ),
        (u, ground (arith, read', run')),
      )
