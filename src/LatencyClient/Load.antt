-- ===== src/LatencyClient/Load.antt =====
-- What the three tests do with the message that they build.
use hft.Base.{
  ℕ, ◌+◌, ◌*◌, ◌<◌, ◌≡◌, zero, true, List, [], ◌∷◌, none, arith, length, length-replicate,
}
use hft.Message.Types.{payload_capacity, new_message, new_order_message}
use hft.Message.Codec.Extent.{length-encode_order}
use hft.Client.Messages.{copy_to_payload}
use hft.Client.Requests.{symbol_of_lem}
use hft.LatencyClient.State.{Tester, reset_stats}
use hft.LatencyClient.Run.{
  Turn, test_order, create_test_message, send_turn, send_turns, run_latency_test, send_bursts,
  run_burst_test, send_until, run_sustained_test,
}

test_order_payload :
    (quantity price : ℕ) (symbol : List ℕ)
    → length (test_order quantity price symbol).payload ≡ payload_capacity
unfolding test_order new_order_message new_message
test_order_payload quantity price symbol = length-replicate 1024 zero

test_order_symbol :
    (quantity price : ℕ) (symbol : List ℕ) → length (test_order quantity price symbol).symbol ≡ 16
unfolding test_order
test_order_symbol quantity price symbol = (symbol_of_lem symbol).0

create_test_message_overflows :
    (quantity price : ℕ) (symbol : List ℕ) → create_test_message quantity price symbol ≡ none
unfolding create_test_message copy_to_payload new_message
create_test_message_overflows quantity price symbol = ground (
  arith,
  length-encode_order (test_order quantity price symbol) (test_order_payload quantity price symbol)
      (test_order_symbol quantity price symbol),
  length-replicate 1024 zero,
)

module _ {D : Type 0} where
  pub send_turn_overflows : (x : Turn) (t : Tester D) → send_turn x t ≡ none
  unfolding send_turn
  send_turn_overflows x t =
      ground (arith, create_test_message_overflows x.quantity x.price x.symbol)

  send_bursts_overflows :
      (ms : ℕ) (x : Turn) (xs : List Turn) (rest : List (List Turn)) (t : Tester D)
      → send_bursts ms ((x ∷ xs) ∷ rest) t ≡ none
  unfolding send_bursts send_turns
  send_bursts_overflows ms x xs [] t = ground (arith, send_turn_overflows x t)
  send_bursts_overflows ms x xs (ys ∷ rest) t = ground (arith, send_turn_overflows x t)

  pub send_turns_overflows :
      (ms : ℕ) (x : Turn) (xs : List Turn) (t : Tester D) → send_turns ms (x ∷ xs) t ≡ none
  unfolding send_turns
  send_turns_overflows ms x xs t = ground (arith, send_turn_overflows x t)

  pub send_until_overflows :
      (end_ns us clock : ℕ) (x : Turn) (xs : List (ℕ × Turn)) (t : Tester D)
      → clock < end_ns
      → send_until end_ns us ((clock, x) ∷ xs) t ≡ none
  unfolding send_until
  send_until_overflows end_ns us clock x xs t before =
      ground (arith, before, send_turn_overflows x t)

  -- Each test of a connected client that comes to a message writes past the end of its payload:
  -- the order that is copied into it has 1120 bytes, and the payload 1024. For the sustained
  -- test the rate is not 0 and the clock has not come to the end at the first turn.
  pub tests_overflow :
      (ms start_ns seconds rate clock : ℕ) (x : Turn) (xs : List Turn) (bursts : List (List Turn))
      (later : List (ℕ × Turn)) (t : Tester D)
      → t.connected ≡ true
      → 0 < rate
      → clock < start_ns + seconds * 1000000000
      → (run_latency_test ms (x ∷ xs) t ≡ none)
        × (run_burst_test ms ((x ∷ xs) ∷ bursts) t ≡ none)
        × (run_sustained_test start_ns seconds rate ((clock, x) ∷ later) t ≡ none)
  unfolding run_latency_test run_burst_test run_sustained_test
  tests_overflow ms start_ns seconds rate clock x xs bursts later t on some_rate before = (
    ground (arith, on, send_turn_overflows x (reset_stats t)),
    ground (arith, on, send_bursts_overflows ms x xs bursts (reset_stats t)),
    ground (arith, on, some_rate, before, send_turn_overflows x (reset_stats t)),
  )
