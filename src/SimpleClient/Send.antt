-- ===== src/SimpleClient/Send.antt =====
-- src/hft_tcp_client_simple.cpp: `send_message` and its callers, and `create_test_order`. What `send`
-- returns, the identifiers that are drawn and the clock are arguments.
use Prim.Native.Nat.{min}
use hft.Base.{
  ℕ, Bool, true, false, List, Option, none, some, length, take, overwrite, ◌==◌, if◌then◌else◌,
}
use hft.Message.Types.{
  Message, MessageType, OrderMessage, OrderSide, OrderType, TimeInForce, new_order_message,
}
use hft.Message.Layout.{message_size, order_size}
use hft.Message.Codec.{encode_message, encode_order}
use hft.Client.Messages.{new_request, symbol_of}
use hft.Client.Send.{count_sent, count_error}
use hft.SimpleClient.State.{SimpleClient, sent, emit, is_connected}

-- `memcpy` of as many bytes as fit in the payload.
unfoldable pub copy_truncated : List ℕ → Message → Message
copy_truncated bytes m = record m {
  payload = overwrite m.payload (take (min (length bytes) (length m.payload)) bytes);
}

unfoldable pub order_request : ℕ → ℕ → ℕ → OrderMessage → Message
unfolding new_request copy_truncated
order_request id now client_id order =
    copy_truncated (encode_order order)
      (new_request id now client_id MessageType.order_new order_size)

unfoldable pub heartbeat_request : ℕ → ℕ → ℕ → Message
unfolding new_request
heartbeat_request id now client_id = new_request id now client_id MessageType.heartbeat 0

unfoldable pub create_test_order : ℕ → ℕ → ℕ → List ℕ → OrderSide → ℕ → ℕ → OrderMessage
unfolding new_order_message symbol_of
create_test_order id now client_order_id symbol side quantity price = record new_order_message {
  base = record base { message_id = id; timestamp = now };
  side = side;
  order_type = OrderType.limit;
  time_in_force = TimeInForce.day;
  quantity = quantity;
  price = price;
  client_order_id = client_order_id;
  symbol = symbol_of symbol;
}
  where
    open new_order_message use {base}

abbrev pub is_whole : Option ℕ → Bool
is_whole none = false
is_whole (some n) = n == message_size

module _ {D : Type 0} where
  -- The bytes that one `send` put on the wire: what it returned of them.
  abbrev pub put_on_wire : List ℕ → Option ℕ → SimpleClient D → SimpleClient D
  put_on_wire bytes answer c = elim c.socket_fd [
    | none ↦ c
    | some fd ↦ elim answer [ none ↦ c | some n ↦ emit (sent fd (take n bytes)) c ]
  ]

  unfoldable pub send_message : Message → Option ℕ → SimpleClient D → SimpleClient D × Bool
  send_message msg answer c =
      let after = put_on_wire (encode_message msg) answer c in
      if is_connected c
      then (if is_whole answer
          then (record after { stats = count_sent after.stats }, true)
          else (record after { stats = count_error after.stats }, false))
      else (c, false)

  unfoldable pub send_order :
      ℕ → ℕ → OrderMessage → Option ℕ → SimpleClient D → SimpleClient D × Bool
  unfolding send_message order_request
  send_order id now order answer c = send_message (order_request id now c.client_id order) answer c

  unfoldable pub send_heartbeat : ℕ → ℕ → Option ℕ → SimpleClient D → SimpleClient D × Bool
  unfolding send_message heartbeat_request
  send_heartbeat id now answer c = send_message (heartbeat_request id now c.client_id) answer c
