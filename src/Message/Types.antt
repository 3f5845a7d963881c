-- ===== src/Message/Types.antt =====
-- inc/message.h: the enumerations and the message structures, with their constructors.
--
-- An `enum class` over uint8_t holds any byte, also one that no enumerator names: a message is read
-- from the network by a cast. Such a byte is `unnamed`.
use hft.Base.{ℕ, Bool, ◌&&◌, not, List, replicate, leb, ◌==◌}

pub data MessageType : Type 0 where
  order_new order_cancel order_replace order_fill order_reject : MessageType
  market_data heartbeat login logout error : MessageType
  unnamed : ℕ → MessageType

pub data OrderSide : Type 0 where
  buy sell : OrderSide
  unnamed : ℕ → OrderSide

pub data OrderType : Type 0 where
  market limit stop stop_limit : OrderType
  unnamed : ℕ → OrderType

pub data TimeInForce : Type 0 where
  day ioc fok gtc : TimeInForce
  unnamed : ℕ → TimeInForce

pub data MessageStatus : Type 0 where
  pending processed completed failed : MessageStatus
  unnamed : ℕ → MessageStatus

-- The size of the array `payload`.
abbrev pub payload_capacity : ℕ
payload_capacity = 1024

pub record Message : Type 0 where
  pub message_id : ℕ  -- uint64_t
  pub timestamp : ℕ  -- uint64_t
  pub sequence_number : ℕ  -- uint32_t
  pub message_type : MessageType
  pub status : MessageStatus
  pub source_id : ℕ  -- uint32_t
  pub destination_id : ℕ  -- uint32_t
  pub payload_size : ℕ  -- uint32_t
  pub payload : List ℕ  -- 1024 bytes

pub record OrderMessage : Type 0 where
  pub base : Message
  pub open base use *
  pub symbol : List ℕ  -- 16 bytes
  pub side : OrderSide
  pub order_type : OrderType
  pub time_in_force : TimeInForce
  pub order_id : ℕ  -- uint64_t
  pub client_order_id : ℕ  -- uint64_t
  pub quantity : ℕ  -- uint32_t
  pub price : ℕ  -- uint64_t
  pub stop_price : ℕ  -- uint64_t

pub record MarketDataMessage : Type 0 where
  pub base : Message
  pub open base use *
  pub symbol : List ℕ  -- 16 bytes
  pub bid_price : ℕ  -- uint64_t
  pub bid_size : ℕ  -- uint32_t
  pub ask_price : ℕ  -- uint64_t
  pub ask_size : ℕ  -- uint32_t
  pub last_price : ℕ  -- uint64_t
  pub last_size : ℕ  -- uint32_t
  pub volume : ℕ  -- uint64_t
  pub high_price : ℕ  -- uint64_t
  pub low_price : ℕ  -- uint64_t

pub record FillMessage : Type 0 where
  pub base : Message
  pub open base use *
  pub order_id : ℕ  -- uint64_t
  pub fill_id : ℕ  -- uint64_t
  pub fill_quantity : ℕ  -- uint32_t
  pub fill_price : ℕ  -- uint64_t
  pub commission : ℕ  -- uint64_t
  pub execution_venue : List ℕ  -- 16 bytes

-- The constructor `Message()`.
unfoldable pub new_message : Message
new_message = record {
  message_id = 0;
  timestamp = 0;
  sequence_number = 0;
  message_type = MessageType.heartbeat;
  status = MessageStatus.pending;
  source_id = 0;
  destination_id = 0;
  payload_size = 0;
  payload = replicate payload_capacity 0;
}

-- The constructor `OrderMessage()`.
unfoldable pub new_order_message : OrderMessage
unfolding new_message
new_order_message = record {
  base = record new_message { message_type = MessageType.order_new };
  symbol = replicate 16 0;
  side = OrderSide.buy;
  order_type = OrderType.limit;
  time_in_force = TimeInForce.day;
  order_id = 0;
  client_order_id = 0;
  quantity = 0;
  price = 0;
  stop_price = 0;
}

-- The constructor `MarketDataMessage()`.
unfoldable pub new_market_data_message : MarketDataMessage
unfolding new_message
new_market_data_message = record {
  base = record new_message { message_type = MessageType.market_data };
  symbol = replicate 16 0;
  bid_price = 0;
  bid_size = 0;
  ask_price = 0;
  ask_size = 0;
  last_price = 0;
  last_size = 0;
  volume = 0;
  high_price = 0;
  low_price = 0;
}

-- The constructor `FillMessage()`.
unfoldable pub new_fill_message : FillMessage
unfolding new_message
new_fill_message = record {
  base = record new_message { message_type = MessageType.order_fill };
  order_id = 0;
  fill_id = 0;
  fill_quantity = 0;
  fill_price = 0;
  commission = 0;
  execution_venue = replicate 16 0;
}

-- `now` is the value that `get_current_timestamp` returns.
abbrev pub update_timestamp : ℕ → Message → Message
update_timestamp now m = record m { timestamp = now }

unfoldable pub is_valid : Message → Bool
is_valid m =
    not (m.message_id == 0) && (not (m.timestamp == 0) && leb m.payload_size payload_capacity)

unfoldable pub clear : Message → Message
clear m = record m {
  message_id = 0;
  timestamp = 0;
  sequence_number = 0;
  message_type = MessageType.heartbeat;
  status = MessageStatus.pending;
  source_id = 0;
  destination_id = 0;
  payload_size = 0;
  payload = replicate payload_capacity 0;
}
