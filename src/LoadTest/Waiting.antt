-- ===== src/LoadTest/Waiting.antt =====
-- src/hft_latency_test_100k.cpp: which latencies `run_latency_test` measures, and whether its loop ends.
use Prim.Native.Nat.{min}
use hft.Base.{
  ℕ, zero, suc, ◌+◌, ◌/◌, ◌≡◌, refl, ap, sym, ◌∙◌, List, [], ◌∷◌, ◌++◌, arith, length,
  length-append, length-drop, if◌then◌else◌, leb, append_assoc, append-nil,
}
use hft.Message.Layout.{message_size}
use hft.LatencyClient.Matching.{response_times, latencies}
use hft.LoadTest.State.{LoadTest}
use hft.LoadTest.Responses.{
  Receiving, RecvAnswer, received, nothing, closed_by_server, failed, waiting, finished,
  receive_responses,
}
use hft.LoadTest.Matching.{IsCounted, IsReceived, unmatched}
use hft.LoadTest.Run.{Turn, send_order, send_turn, send_turns}
use hft.LoadTest.Responses.{run_latency_test}
use hft.LoadTest.Loop.{all_times, IsOnline, receive_loop-IsReceived}

-- The send times that a run of turns leaves.
unfoldable pub times_of : List Turn → List ℕ
times_of [] = []
times_of (x ∷ xs) = x.send_ns ∷ times_of xs

send_turn-times :
    (x : Turn) (t : LoadTest) → (send_turn x t).send_times ≡ t.send_times ++ x.send_ns ∷ []
unfolding send_turn send_order
send_turn-times x t = ground arith

send_turn-latencies :
    (x : Turn) (t : LoadTest) → (send_turn x t).latency_measurements ≡ t.latency_measurements
unfolding send_turn send_order
send_turn-latencies x t = ground arith

send_turns-times :
    (xs : List Turn) (t : LoadTest) → (send_turns xs t).send_times ≡ t.send_times ++ times_of xs
unfolding send_turns times_of
send_turns-times [] t = sym (append-nil t.send_times)
send_turns-times (x ∷ xs) t =
    send_turns-times xs (send_turn x t)
    ∙ ap (λ (l : List ℕ). l ++ times_of xs) (send_turn-times x t)
    ∙ append_assoc t.send_times (x.send_ns ∷ []) (times_of xs)

send_turns-latencies :
    (xs : List Turn) (t : LoadTest)
    → (send_turns xs t).latency_measurements ≡ t.latency_measurements
unfolding send_turns
send_turns-latencies [] t = refl
send_turns-latencies (x ∷ xs) t = send_turns-latencies xs (send_turn x t) ∙ send_turn-latencies x t

length-times_of : (xs : List Turn) → length (times_of xs) ≡ length xs
unfolding times_of
length-times_of [] = refl
length-times_of (x ∷ xs) = ap suc (length-times_of xs)

-- How many whole messages the answers hold.
unfoldable pub responses : List RecvAnswer → ℕ
responses [] = 0
responses (received n clock ∷ answers) = n / message_size + responses answers
responses (_ ∷ answers) = responses answers

length-response_times : (clock : ℕ → ℕ) (offset k : ℕ) → length (response_times clock offset k) ≡ k
length-response_times clock offset zero = refl
length-response_times clock offset (suc k) =
    ap suc (length-response_times clock (offset + message_size) k)

pub length-all_times : (answers : List RecvAnswer) → length (all_times answers) ≡ responses answers
unfolding all_times responses
length-all_times [] = refl
length-all_times (received n clock ∷ answers) = omega (
  arith,
  length-append (response_times clock 0 (n / message_size)) (all_times answers),
  length-response_times clock 0 (n / message_size),
  length-all_times answers,
)
length-all_times (nothing ∷ answers) = length-all_times answers
length-all_times (closed_by_server ∷ answers) = length-all_times answers
length-all_times (failed ∷ answers) = length-all_times answers

messages_received-IsReceived :
    (rs : List ℕ) (r v : Receiving)
    → IsCounted r
    → IsReceived rs r v
    → v.messages_received ≡ min (r.messages_received + length rs) (length r.test.send_times)
messages_received-IsReceived rs r v c a = omega (
  arith,
  a.counted.same,
  a.counted.in_range,
  c.same,
  c.in_range,
  ap length a.times,
  ap length a.pending,
  length-drop v.send_time_index v.test.send_times,
  length-drop r.send_time_index r.test.send_times,
  length-drop (length rs) (unmatched r),
)

-- The send times at the start of `receive_responses`.
abbrev pub waiting_times : List Turn → LoadTest → List ℕ
waiting_times xs t = t.send_times ++ times_of xs

-- While `recv` does not fail and the server stays connected, `run_latency_test` reads no send
-- time past the end, and measures the responses that arrive against the send times first in,
-- first out, those that earlier tests left included. It ends its loop when there are as many
-- whole responses as send times, and waits for ever for the rest if there are fewer: with no
-- response at all, always, unless there is no send time. A send that fails leaves its send time
-- too.
pub run_latency_test-latencies :
    (xs : List Turn) (answers : List RecvAnswer) (t : LoadTest)
    → IsOnline answers
    → (v : Receiving) × (run_latency_test xs answers t ≡ (
        if leb (length t.send_times + length xs) (responses answers)
        then finished v
        else waiting v))
      × (v.test.latency_measurements ≡ latencies (all_times answers) (t.send_times ++ times_of xs))
      × (v.messages_received ≡ min (responses answers) (length t.send_times + length xs))
unfolding run_latency_test receive_responses
run_latency_test-latencies xs answers t on =
    let (v, run, a) = receive_loop-IsReceived answers start on counted in
    let total = messages_received-IsReceived (all_times answers) start v counted a in
    (
      v,
      run ∙ ground (arith, total, length-all_times answers, size, ap length a.times),
      a.measured
          ∙ ap (λ (l : List ℕ). l ++ latencies (all_times answers) sent_all.send_times)
              (send_turns-latencies xs (record t { latency_measurements = [] }))
          ∙ ap (latencies (all_times answers))
              (send_turns-times xs (record t { latency_measurements = [] })),
      omega (arith, total, length-all_times answers, size),
    )
  where
    sent_all : LoadTest
    sent_all = send_turns xs (record t { latency_measurements = [] })

    start : Receiving
    start = record { test = sent_all; messages_received = 0; send_time_index = 0 }

    counted : IsCounted start
    counted = record { same = refl; in_range = omega arith }

    size : length sent_all.send_times ≡ length t.send_times + length xs
    size = omega (
      arith,
      ap length (send_turns-times xs (record t { latency_measurements = [] })),
      length-append t.send_times (times_of xs),
      length-times_of xs,
    )
