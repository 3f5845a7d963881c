-- ===== src/LoadTest/Responses.antt =====
-- src/hft_latency_test_100k.cpp: `receive_responses`, and `run_latency_test` up to the statistics.
use hft.Base.{
  ℕ, zero, suc, ◌+◌, ◌&&◌, true, false, List, [], ◌∷◌, ◌++◌, Option, none, some, length, leb, ltb,
  get_elem?,
}
use hft.Message.Layout.{message_size}
use hft.Client.State.{sub64}
use hft.LoadTest.State.{LoadTest, slept_us, emit}
use hft.LoadTest.Run.{Turn, send_turns}

-- The local variables of `receive_responses`, beside the test.
pub record Receiving : Type 0 where
  pub test : LoadTest
  pub messages_received : ℕ
  pub send_time_index : ℕ

-- The body of the inner loop. `none` is an index past the end of `send_times_`.
unfoldable pub take_response : ℕ → Receiving → Option Receiving
take_response receive_ns r = elim (get_elem? r.test.send_times r.send_time_index) [
  | none ↦ none
  | some send_ns ↦ some (record {
    test = record test {
      latency_measurements = test.latency_measurements ++ sub64 receive_ns send_ns ∷ [];
    };
    messages_received = suc r.messages_received;
    send_time_index = suc r.send_time_index;
  })
]
  where
    open r use {test}

-- The inner loop from `offset` on, with the clock at each offset; every turn takes the fuel down.
unfoldable pub response_loop : ℕ → (ℕ → ℕ) → ℕ → ℕ → Receiving → Option Receiving
unfolding take_response
response_loop zero clock n offset r = none
response_loop (suc fuel) clock n offset r =
    elim (leb (offset + message_size) n && ltb r.send_time_index (length r.test.send_times)) [
      | false ↦ some r
      | true ↦ elim (take_response (clock offset) r) [
        | none ↦ none
        | some r' ↦ response_loop fuel clock n (offset + message_size) r'
      ]
    ]

-- What `recv` answers.
pub data RecvAnswer : Type 0 where
  received : ℕ → (ℕ → ℕ) → RecvAnswer  -- the number of bytes, and the clock
  nothing closed_by_server failed : RecvAnswer

-- How the outer loop was left, or that it goes on after the answers there are.
pub data Outcome : Type 0 where
  waiting finished cut_off : Receiving → Outcome
  fault : Outcome

abbrev pub slept : Receiving → Receiving
slept r = record r { test = emit (slept_us 10) r.test }

-- The outer loop, over the answers of its calls of `recv`.
unfoldable pub receive_loop : List RecvAnswer → Receiving → Outcome
unfolding response_loop
receive_loop [] r = elim (ltb r.messages_received (length r.test.send_times)) [
  | true ↦ waiting r
  | false ↦ finished r
]
receive_loop (answer ∷ answers) r = elim (ltb r.messages_received (length r.test.send_times)) [
  | false ↦ finished r
  | true ↦ elim answer [
    | received n clock ↦ elim (response_loop (suc n) clock n 0 r) [
      | none ↦ fault
      | some r' ↦ receive_loop answers (slept r')
    ]
    | nothing ↦ receive_loop answers (slept r)
    | closed_by_server ↦ cut_off r
    | failed ↦ cut_off r
  ]
]

unfoldable pub receive_responses : List RecvAnswer → LoadTest → Outcome
unfolding receive_loop
receive_responses answers t =
    receive_loop answers (record { test = t; messages_received = 0; send_time_index = 0 })

-- `run_latency_test`, up to `calculate_statistics`: `send_times_` is not cleared.
unfoldable pub run_latency_test : List Turn → List RecvAnswer → LoadTest → Outcome
unfolding receive_responses
run_latency_test xs answers t =
    receive_responses answers (send_turns xs (record t { latency_measurements = [] }))
