-- ===== src/LatencyClient/Run.antt =====
-- src/latency_client.cpp: the three tests. What the random generator, the clocks and `send` give to
-- one turn of a loop is an argument of the turn.
use hft.Base.{
  ℕ, ◌+◌, ◌*◌, ◌/◌, true, false, List, [], ◌∷◌, ◌++◌, Option, none, some, ltb, take, ◌==◌,
  if◌then◌else◌,
}
use hft.Message.Types.{
  Message, MessageType, MessageStatus, OrderMessage, OrderSide, OrderType, TimeInForce, new_message,
  new_order_message,
}
use hft.Message.Layout.{order_size}
use hft.Message.Codec.{encode_message, encode_order}
use hft.Client.State.{add64}
use hft.Client.Messages.{copy_to_payload, symbol_of}
use hft.LatencyClient.State.{Tester, sent, slept_ms, slept_us, emit, reset_stats}

unfoldable pub test_order : ℕ → ℕ → List ℕ → OrderMessage
unfolding new_order_message symbol_of
test_order quantity price symbol = record new_order_message {
  side = OrderSide.buy;
  order_type = OrderType.limit;
  time_in_force = TimeInForce.day;
  quantity = quantity;
  price = price;
  symbol = symbol_of symbol;
}

-- `none` is a write past the end of the payload.
unfoldable pub create_test_message : ℕ → ℕ → List ℕ → Option Message
unfolding new_message copy_to_payload test_order
create_test_message quantity price symbol =
    copy_to_payload (encode_order (test_order quantity price symbol)) (record new_message {
      message_type = MessageType.order_new;
      status = MessageStatus.pending;
      source_id = 1;
      destination_id = 0;
      payload_size = order_size;
    })

pub record Turn : Type 0 where
  pub id : ℕ
  pub now : ℕ
  pub quantity : ℕ
  pub price : ℕ
  pub symbol : List ℕ
  pub send_ns : ℕ
  pub bytes_sent : Option ℕ  -- the result of `send`

module _ {D : Type 0} where
  unfoldable pub send_message : Message → Option ℕ → Tester D → Tester D
  send_message msg answer t =
      if t.connected
      then (elim answer [
        | none ↦ record t { errors = add64 t.errors 1 }
        | some n ↦ elim t.socket_fd [
          | none ↦ record t { errors = add64 t.errors 1 }
          | some fd ↦ emit (sent fd (take n (encode_message msg))) t
        ]
      ])
      else t

  -- The part of a turn that follows `create_test_message`.
  unfoldable pub send_test : Message → ℕ → Option ℕ → Tester D → Tester D
  unfolding send_message
  send_test msg send_ns answer t = record after {
    latency_measurements = after.latency_measurements ++ send_ns ∷ [];
    messages_sent = add64 after.messages_sent 1;
  }
    where
      after : Tester D
      after = send_message msg answer t

  unfoldable pub send_turn : Turn → Tester D → Option (Tester D)
  unfolding create_test_message send_test
  send_turn x t = elim (create_test_message x.quantity x.price x.symbol) [
    | none ↦ none
    | some msg ↦
        some
          (send_test (record msg { message_id = x.id; timestamp = x.now }) x.send_ns x.bytes_sent t)
  ]

  -- `if (interval > 0) sleep_for(...)`
  unfoldable pub pause : ℕ → Tester D → Tester D
  pause interval_ms t = if ltb 0 interval_ms then emit (slept_ms interval_ms) t else t

  unfoldable pub send_turns : ℕ → List Turn → Tester D → Option (Tester D)
  unfolding send_turn pause
  send_turns interval_ms [] t = some t
  send_turns interval_ms (x ∷ xs) t = elim (send_turn x t) [
    | none ↦ none
    | some t' ↦ send_turns interval_ms xs (pause interval_ms t')
  ]

  -- One turn for each message.
  unfoldable pub run_latency_test : ℕ → List Turn → Tester D → Option (Tester D)
  unfolding send_turns
  run_latency_test interval_ms xs t =
      if t.connected
      then (elim (send_turns interval_ms xs (reset_stats t)) [
        | none ↦ none
        | some t' ↦ some (emit (slept_ms 1000) t')
      ])
      else some t

  -- There is a pause between two bursts, and none after the last.
  unfoldable pub send_bursts : ℕ → List (List Turn) → Tester D → Option (Tester D)
  unfolding send_turns pause
  send_bursts interval_ms [] t = some t
  send_bursts interval_ms (xs ∷ []) t = send_turns 0 xs t
  send_bursts interval_ms (xs ∷ ys ∷ rest) t = elim (send_turns 0 xs t) [
    | none ↦ none
    | some t' ↦ send_bursts interval_ms (ys ∷ rest) (pause interval_ms t')
  ]

  unfoldable pub run_burst_test : ℕ → List (List Turn) → Tester D → Option (Tester D)
  unfolding send_bursts
  run_burst_test interval_ms bursts t =
      if t.connected
      then (elim (send_bursts interval_ms bursts (reset_stats t)) [
        | none ↦ none
        | some t' ↦ some (emit (slept_ms 1000) t')
      ])
      else some t

  -- A turn is taken while the clock, read before it, has not come to the end.
  unfoldable pub send_until : ℕ → ℕ → List (ℕ × Turn) → Tester D → Option (Tester D)
  unfolding send_turn
  send_until end_ns interval_us [] t = some t
  send_until end_ns interval_us ((clock, x) ∷ xs) t = elim (ltb clock end_ns) [
    | false ↦ some t
    | true ↦ elim (send_turn x t) [
      | none ↦ none
      | some t' ↦ send_until end_ns interval_us xs (emit (slept_us interval_us) t')
    ]
  ]

  -- The interval is 1000000 divided by the rate: at the rate 0 that is a fault.
  unfoldable pub run_sustained_test : ℕ → ℕ → ℕ → List (ℕ × Turn) → Tester D → Option (Tester D)
  unfolding send_until
  run_sustained_test start_ns duration_seconds messages_per_second xs t =
      if t.connected
      then (if messages_per_second == 0
          then none
          else (elim (send_until (start_ns + duration_seconds * 1000000000)
              (1000000 / messages_per_second) xs (reset_stats t)) [
                | none ↦ none
                | some t' ↦ some (emit (slept_ms 1000) t')
              ]))
      else some t
