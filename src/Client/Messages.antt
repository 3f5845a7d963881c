-- ===== src/Client/Messages.antt =====
-- src/hft_tcp_client.cpp: the messages that the client builds. The identifier is drawn from
-- `message_id_dist_` and the time is read from the clock: both are arguments.
use hft.Base.{
  ℕ, ◌+◌, ◌-◌, ◌/◌, ◌%◌, ◌^◌, List, [], ◌∷◌, ◌++◌, Option, none, some, length, leb, take, replicate,
  ◌==◌, overwrite, if◌then◌else◌,
}
use hft.Message.Types.{
  Message, MessageType, MessageStatus, OrderMessage, OrderSide, OrderType, TimeInForce,
  MarketDataMessage, new_message, new_order_message, new_market_data_message,
}
use hft.Message.Layout.{order_size, market_data_size}
use hft.Message.Codec.{encode_order, encode_market_data}

-- The part that the three senders share, up to `payload_size`.
unfoldable pub new_request : ℕ → ℕ → ℕ → MessageType → ℕ → Message
unfolding new_message
new_request id now client_id type payload_size = record new_message {
  message_id = id;
  timestamp = now;
  message_type = type;
  status = MessageStatus.pending;
  source_id = client_id;
  destination_id = 0;
  payload_size = payload_size;
}

-- `memcpy` to the payload. A copy that does not fit writes past the array: that is a fault.
unfoldable pub copy_to_payload : List ℕ → Message → Option Message
copy_to_payload bytes m =
    if leb (length bytes) (length m.payload)
    then some (record m { payload = overwrite m.payload bytes })
    else none

unfoldable pub order_request : ℕ → ℕ → ℕ → OrderMessage → Option Message
unfolding new_request copy_to_payload
order_request id now client_id order =
    copy_to_payload (encode_order order)
      (new_request id now client_id MessageType.order_new order_size)

unfoldable pub market_data_request : ℕ → ℕ → ℕ → MarketDataMessage → Option Message
unfolding new_request copy_to_payload
market_data_request id now client_id market_data =
    copy_to_payload (encode_market_data market_data)
      (new_request id now client_id MessageType.market_data market_data_size)

unfoldable pub heartbeat_request : ℕ → ℕ → ℕ → Message
unfolding new_request
heartbeat_request id now client_id = new_request id now client_id MessageType.heartbeat 0

-- The characters before the first NUL.
abbrev pub c_str : List ℕ → List ℕ
c_str [] = []
c_str (ch ∷ cs) = let rest = c_str cs in if ch == 0 then [] else ch ∷ rest

-- `strncpy(symbol, text, 15)`, which fills with NULs, and `symbol[15] = '\0'`.
unfoldable pub symbol_of : List ℕ → List ℕ
symbol_of text = let copied = take 15 (c_str text) in copied ++ replicate (16 - length copied) 0

unfoldable pub create_test_order : ℕ → ℕ → ℕ → List ℕ → OrderSide → ℕ → ℕ → OrderMessage
unfolding new_order_message symbol_of
create_test_order id now client_order_id symbol side quantity price = record new_order_message {
  base = record base { message_id = id; timestamp = now };
  side = side;
  order_type = OrderType.limit;
  time_in_force = TimeInForce.day;
  quantity = quantity;
  price = price;
  client_order_id = client_order_id;
  symbol = symbol_of symbol;
}
  where
    open new_order_message use {base}

unfoldable pub create_test_market_data : ℕ → ℕ → ℕ → List ℕ → ℕ → ℕ → ℕ → ℕ → MarketDataMessage
unfolding new_market_data_message symbol_of
create_test_market_data id now volume symbol bid_price bid_size ask_price ask_size =
    record new_market_data_message {
      base = record base { message_id = id; timestamp = now };
      bid_price = bid_price;
      bid_size = bid_size;
      ask_price = ask_price;
      ask_size = ask_size;
      last_price = (bid_price + ask_price) % 2 ^ 64 / 2;
      last_size = (bid_size + ask_size) % 2 ^ 32 / 2;
      volume = volume;
      high_price = ask_price;
      low_price = bid_price;
      symbol = symbol_of symbol;
    }
  where
    open new_market_data_message use {base}
