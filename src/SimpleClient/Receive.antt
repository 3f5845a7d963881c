-- ===== src/SimpleClient/Receive.antt =====
-- src/hft_tcp_client_simple.cpp: `receive_messages`, `process_message` and `update_latency_stats`.
-- `none` is a read out of bounds.
use hft.Base.{
  ℕ, zero, suc, ◌+◌, true, false, List, [], ◌∷◌, Option, none, some, length, leb, ltb, drop,
  if◌then◌else◌,
}
use hft.Message.Types.{Message, MessageType}
use hft.Message.Layout.{message_size, order_size, market_data_size}
use hft.Message.Codec.{decode_message, decode_order, decode_market_data}
use hft.Client.State.{ClientStats, Floats, add64, sub64}
use hft.Client.Latency.{remember}
use hft.Client.Send.{count_error}
use hft.SimpleClient.State.{
  SimpleClient, message_shown, order_shown, market_data_shown, heartbeat_shown, slept_us, emit,
  is_connected,
}

module _ {D : Type 0} where
  show_order : Message → SimpleClient D → Option (SimpleClient D)
  show_order msg c =
      if leb order_size msg.payload_size
      then (elim (decode_order msg.payload) [
        | none ↦ none
        | some (order, _) ↦ some (emit (order_shown order) c)
      ])
      else some c

  show_market_data : Message → SimpleClient D → Option (SimpleClient D)
  show_market_data msg c =
      if leb market_data_size msg.payload_size
      then (elim (decode_market_data msg.payload) [
        | none ↦ none
        | some (market_data, _) ↦ some (emit (market_data_shown market_data) c)
      ])
      else some c

  -- The `switch`.
  show_by_type : MessageType → Message → SimpleClient D → Option (SimpleClient D)
  unfolding show_order show_market_data
  show_by_type MessageType.order_new msg c = show_order msg c
  show_by_type MessageType.order_cancel msg c = show_order msg c
  show_by_type MessageType.order_replace msg c = show_order msg c
  show_by_type MessageType.order_fill msg c = show_order msg c
  show_by_type MessageType.order_reject msg c = show_order msg c
  show_by_type MessageType.market_data msg c = show_market_data msg c
  show_by_type MessageType.heartbeat msg c = some (emit heartbeat_shown c)
  show_by_type _ msg c = some c

  unfoldable pub process_message : Message → SimpleClient D → Option (SimpleClient D)
  unfolding show_by_type
  process_message msg c = show_by_type msg.message_type msg (emit (message_shown msg) c)

module _ {D : Type 0} (F : Floats D) where
  -- The total is added to, and the average taken, after the minimum and the maximum.
  unfoldable pub measure : ℕ → ClientStats D → ClientStats D
  measure latency_ns s =
      let total = add64 s.total_latency_ns latency_ns in
      record s {
        min_latency_ns = if ltb latency_ns s.min_latency_ns then latency_ns else s.min_latency_ns;
        max_latency_ns = if ltb s.max_latency_ns latency_ns then latency_ns else s.max_latency_ns;
        total_latency_ns = total;
        avg_latency_us =
            if ltb 0 s.messages_received
            then F.divide (F.divide (F.of_count total) F.thousand) (F.of_count s.messages_received)
            else s.avg_latency_us;
      }

  unfoldable pub update_latency_stats : ℕ → SimpleClient D → SimpleClient D
  unfolding remember measure
  update_latency_stats latency_ns c = record c {
    latency_measurements = remember latency_ns c.latency_measurements;
    stats = measure latency_ns c.stats;
  }

  abbrev pub count_received : SimpleClient D → SimpleClient D
  count_received c = record c {
    stats = record stats { messages_received = add64 stats.messages_received 1 };
  }
    where
      open c use {stats}

  -- The count, and the latency of a message that has a timestamp.
  unfoldable pub count_and_measure : ℕ → Message → SimpleClient D → SimpleClient D
  unfolding update_latency_stats
  count_and_measure receive_ns msg c =
      let counted = count_received c in
      if ltb 0 msg.timestamp
      then update_latency_stats (sub64 receive_ns msg.timestamp) counted
      else counted

  -- One turn of the inner loop.
  unfoldable pub process_one : ℕ → Message → SimpleClient D → Option (SimpleClient D)
  unfolding process_message count_and_measure
  process_one receive_ns msg c = process_message msg (count_and_measure receive_ns msg c)

  -- The inner loop from `offset` on; `clock` gives the time at each offset. Each turn takes the fuel
  -- down.
  unfoldable pub process_loop : ℕ → (ℕ → ℕ) → List ℕ → ℕ → SimpleClient D → Option (SimpleClient D)
  unfolding process_one
  process_loop zero clock bytes offset c = none
  process_loop (suc fuel) clock bytes offset c = elim (leb (offset + message_size) (length bytes)) [
    | false ↦ some c
    | true ↦ elim (decode_message (drop offset bytes)) [
      | none ↦ none
      | some (msg, _) ↦ elim (process_one (clock offset) msg c) [
        | none ↦ none
        | some c' ↦ process_loop fuel clock bytes (offset + message_size) c'
      ]
    ]
  ]

  unfoldable pub count_bytes : ℕ → ℕ → SimpleClient D → SimpleClient D
  count_bytes n now c = record c {
    stats = record stats { bytes_received = add64 stats.bytes_received n; last_message_time = now };
  }
    where
      open c use {stats}

-- What `recv` answers.
pub data RecvAnswer : Type 0 where
  received : List ℕ → ℕ → (ℕ → ℕ) → RecvAnswer  -- the bytes, the steady clock, the other clock
  nothing closed_by_server failed : RecvAnswer

-- How the loop was left.
pub data Outcome (D : Type 0) : Type 0 where
  waiting : SimpleClient D → Outcome D  -- it goes on, after the answers there are
  left : SimpleClient D → Outcome D
  fault : Outcome D

module _ {D : Type 0} (F : Floats D) where
  -- The outer loop over the answers of its calls of `recv`.
  unfoldable pub receive_messages : List RecvAnswer → SimpleClient D → Outcome D
  unfolding process_loop count_bytes
  receive_messages [] c = if is_connected c then waiting c else left c
  receive_messages (answer ∷ answers) c = elim (is_connected c) [
    | false ↦ left c
    | true ↦ elim answer [
      | received bytes now clock ↦
          elim (process_loop F (suc (length bytes)) clock bytes 0
            (count_bytes F (length bytes) now c)) [
              | none ↦ fault
              | some c' ↦ receive_messages answers (emit (slept_us 100) c')
            ]
      | nothing ↦ receive_messages answers (emit (slept_us 100) c)
      | closed_by_server ↦ left c
      | failed ↦ left (record c { stats = count_error c.stats })
    ]
  ]
