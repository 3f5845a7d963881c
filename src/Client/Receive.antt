-- ===== src/Client/Receive.antt =====
-- src/hft_tcp_client.cpp: `process_received_data`, the handlers, and a turn of the receive thread.
-- `none` is a read out of bounds.
use hft.Base.{
  ℕ, zero, suc, ◌+◌, Bool, true, false, List, Option, none, some, length, leb, ltb, drop,
  if◌then◌else◌,
}
use hft.Message.Types.{Message, MessageType}
use hft.Message.Layout.{message_size, order_size, market_data_size}
use hft.Message.Codec.{decode_message, decode_order, decode_market_data}
use hft.Client.State.{
  Client, Floats, Effect, message_handled, order_handled, market_data_handled, emit, add64, sub64,
  is_connected,
}
use hft.Client.Latency.{update_latency_stats}
use hft.Client.Connect.{ConnectAnswers, handle_disconnection}
use hft.Client.Send.{count_error}

module _ {D : Type 0} where
  abbrev pub emit_if : Bool → Effect → Client D → Client D
  emit_if handler e c = if handler then emit e c else c

  -- The cast of the payload to the message that it should hold.
  process_order_message : Message → Client D → Option (Client D)
  process_order_message msg c = elim (decode_order msg.payload) [
    | none ↦ none
    | some (order, _) ↦ some (emit_if c.has_order_handler (order_handled order) c)
  ]

  process_market_data_message : Message → Client D → Option (Client D)
  process_market_data_message msg c = elim (decode_market_data msg.payload) [
    | none ↦ none
    | some (market_data, _) ↦
        some (emit_if c.has_market_data_handler (market_data_handled market_data) c)
  ]

  order_case : Message → Client D → Option (Client D)
  unfolding process_order_message
  order_case msg c = if leb order_size msg.payload_size then process_order_message msg c else some c

  market_data_case : Message → Client D → Option (Client D)
  unfolding process_market_data_message
  market_data_case msg c =
      if leb market_data_size msg.payload_size then process_market_data_message msg c else some c

  -- The `switch`.
  by_type : MessageType → Message → Client D → Option (Client D)
  unfolding order_case market_data_case
  by_type MessageType.order_new msg c = order_case msg c
  by_type MessageType.order_cancel msg c = order_case msg c
  by_type MessageType.order_replace msg c = order_case msg c
  by_type MessageType.order_fill msg c = order_case msg c
  by_type MessageType.order_reject msg c = order_case msg c
  by_type MessageType.market_data msg c = market_data_case msg c
  by_type _ msg c = some c

  unfoldable pub process_message : Message → Client D → Option (Client D)
  unfolding by_type
  process_message msg c =
      by_type msg.message_type msg (emit_if c.has_message_handler (message_handled msg) c)

  abbrev pub count_received : Client D → Client D
  count_received c = record c {
    stats = record stats { messages_received = add64 stats.messages_received 1 };
  }
    where
      open c use {stats}

module _ {D : Type 0} (F : Floats D) where
  -- One turn of the loop, with the time at which the message is looked at.
  unfoldable pub process_one : ℕ → Message → Client D → Option (Client D)
  process_one receive_ns msg c =
      let timed =
        if ltb 0 msg.timestamp
        then update_latency_stats F (sub64 receive_ns msg.timestamp) c
        else c in
      elim (process_message msg timed) [ none ↦ none | some c' ↦ some (count_received c') ]

  -- The loop, from `offset` on; `clock` gives the time at each offset. Each turn takes the fuel down.
  unfoldable pub process_loop : ℕ → (ℕ → ℕ) → List ℕ → ℕ → Client D → Option (Client D)
  process_loop zero clock bytes offset c = none
  process_loop (suc fuel) clock bytes offset c = elim (leb (offset + message_size) (length bytes)) [
    | false ↦ some c
    | true ↦ elim (decode_message (drop offset bytes)) [
      | none ↦ none
      | some (msg, _) ↦ elim (process_one (clock offset) msg c) [
        | none ↦ none
        | some c' ↦ process_loop fuel clock bytes (offset + message_size) c'
      ]
    ]
  ]

  -- Every turn uses more than one byte, so as many turns as bytes, and one, are enough.
  unfoldable pub process_received_data : (ℕ → ℕ) → List ℕ → Client D → Option (Client D)
  unfolding process_loop
  process_received_data clock bytes c = process_loop (suc (length bytes)) clock bytes 0 c

  -- What `recv` answers in a turn of the receive thread.
  pub data RecvAnswer : Type 0 where
    received : List ℕ → ℕ → (ℕ → ℕ) → RecvAnswer  -- the bytes, the steady clock, the other clock
    nothing : RecvAnswer
    server_closed failed : List ConnectAnswers → RecvAnswer

  unfoldable pub count_bytes : ℕ → ℕ → Client D → Client D
  count_bytes n now c = record c {
    stats = record stats { bytes_received = add64 stats.bytes_received n; last_message_time = now };
  }
    where
      open c use {stats}

  unfoldable pub receive_turn : RecvAnswer → Client D → Option (Client D)
  unfolding process_received_data count_bytes
  receive_turn answer c = elim (is_connected c) [
    | false ↦ some c
    | true ↦ elim answer [
      | received bytes now clock ↦
          process_received_data clock bytes (count_bytes (length bytes) now c)
      | nothing ↦ some c
      | server_closed reconnects ↦ some (handle_disconnection reconnects c).0
      | failed reconnects ↦
          some (handle_disconnection reconnects (record c { stats = count_error c.stats })).0
    ]
  ]
