-- ===== src/LatencyClient/Responses.antt =====
-- src/latency_client.cpp: `receive_responses` and `update_latency_stats`.
use hft.Base.{ℕ, zero, suc, ◌+◌, true, false, List, [], ◌∷◌, leb, ltb, if◌then◌else◌}
use hft.Message.Layout.{message_size}
use hft.Client.State.{add64, sub64}
use hft.LatencyClient.State.{Tester, slept_us, emit}

module _ {D : Type 0} where
  -- No other thread writes the two extremes, so each exchange is made at its first try.
  unfoldable pub update_latency_stats : ℕ → Tester D → Tester D
  update_latency_stats latency_ns t = record t {
    total_latency_ns = add64 t.total_latency_ns latency_ns;
    min_latency_ns = if ltb latency_ns t.min_latency_ns then latency_ns else t.min_latency_ns;
    max_latency_ns = if ltb t.max_latency_ns latency_ns then latency_ns else t.max_latency_ns;
  }

  -- The oldest send time is taken off for the response.
  unfoldable pub match_response : ℕ → Tester D → Tester D
  unfolding update_latency_stats
  match_response receive_ns t = elim t.latency_measurements [
    | [] ↦ t
    | send_ns ∷ rest ↦
        update_latency_stats (sub64 receive_ns send_ns) (record t { latency_measurements = rest })
  ]

  -- One turn of the loop over the buffer; the bytes of the response are not looked at.
  unfoldable pub take_response : ℕ → Tester D → Tester D
  unfolding match_response
  take_response receive_ns t = record matched {
    messages_received = add64 matched.messages_received 1;
  }
    where
      matched : Tester D
      matched = match_response receive_ns t

  -- The loop from `offset` on, with the clock at each offset; every turn takes the fuel down.
  unfoldable pub response_loop : ℕ → (ℕ → ℕ) → ℕ → ℕ → Tester D → Tester D
  unfolding take_response
  response_loop zero clock bytes_received offset t = t
  response_loop (suc fuel) clock bytes_received offset t =
      elim (leb (offset + message_size) bytes_received) [
        | false ↦ t
        | true ↦
            response_loop fuel clock bytes_received (offset + message_size)
              (take_response (clock offset) t)
      ]

  -- A turn goes forward by more than one byte: as many turns as bytes are enough.
  unfoldable pub process_responses : (ℕ → ℕ) → ℕ → Tester D → Tester D
  unfolding response_loop
  process_responses clock bytes_received t = response_loop bytes_received clock bytes_received 0 t

-- What `recv` answers.
pub data RecvAnswer : Type 0 where
  received : ℕ → (ℕ → ℕ) → RecvAnswer  -- the number of bytes, and the clock
  nothing closed_by_server failed : RecvAnswer

module _ {D : Type 0} where
  unfoldable pub receive_responses : List RecvAnswer → Tester D → Tester D
  unfolding process_responses
  receive_responses [] t = t
  receive_responses (received n clock ∷ as') t = elim t.stop_receiver [
    | true ↦ t
    | false ↦ receive_responses as' (emit (slept_us 100) (process_responses clock n t))
  ]
  receive_responses (nothing ∷ as') t = elim t.stop_receiver [
    | true ↦ t
    | false ↦ receive_responses as' (emit (slept_us 100) t)
  ]
  receive_responses (closed_by_server ∷ as') t = t
  receive_responses (failed ∷ as') t =
      if t.stop_receiver then t else record t { errors = add64 t.errors 1 }
