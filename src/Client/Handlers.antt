-- ===== src/Client/Handlers.antt =====
-- The casts of a payload in `process_message`.
use hft.Base.{ℕ, ◌≡◌, Bool, false, List, Option, none, some, arith, length, leb, if◌then◌else◌}
use hft.Message.Types.{Message, MessageType, payload_capacity}
use hft.Message.Layout.{order_size, market_data_size}
use hft.Message.Codec.{decode_order, decode_market_data}
use hft.Message.Codec.Extent.{decode_order-Reads, decode_market_data-Reads}
use hft.Client.State.{Client, message_handled}
use hft.Client.Receive.{process_message, emit_if}

-- The size that a message of this type must state before its payload is cast.
abbrev pub cast_size : MessageType → Option ℕ
cast_size MessageType.order_new = some order_size
cast_size MessageType.order_cancel = some order_size
cast_size MessageType.order_replace = some order_size
cast_size MessageType.order_fill = some order_size
cast_size MessageType.order_reject = some order_size
cast_size MessageType.market_data = some market_data_size
cast_size _ = none

abbrev pub casts : MessageType → ℕ → Bool
casts type payload_size = elim (cast_size type) [ none ↦ false | some n ↦ leb n payload_size ]

short_order : (payload : List ℕ) → length payload ≡ payload_capacity → decode_order payload ≡ none
short_order payload h = decode_order-Reads.needs payload (omega arith)

short_market :
    (payload : List ℕ) → length payload ≡ payload_capacity → decode_market_data payload ≡ none
short_market payload h = decode_market_data-Reads.needs payload (omega arith)

module _ {D : Type 0} where
  -- For a message with a payload of 1024 bytes: when its stated size passes the guard of its
  -- type, 1120 for the five order types and 1152 for market data, the payload is cast past its
  -- end, a fault. On any other the only effect is the call of the message handler, if there is
  -- one.
  pub process_message-casts :
      (m : Message) (c : Client D)
      → length m.payload ≡ payload_capacity
      → process_message m c ≡ (
          if casts m.message_type m.payload_size
          then none
          else some (emit_if c.has_message_handler (message_handled m) c))
  unfolding process_message
  process_message-casts m c full =
      ground (arith, short_order m.payload full, short_market m.payload full)
