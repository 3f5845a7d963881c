-- ===== src/Tests/Samples.antt =====
-- Sample messages, a server and a client, for the examples beside this file.
use hft.Base.{
  ◌≡◌, replicate, List, some, ◌<◌, ◌^◌, ℕ, zero, ◌+◌, ◌*◌, ◌/◌, refl, [], ◌∷◌, some, arith,
  length-replicate,
}
use hft.Message.Types.{
  Message, MessageType, OrderMessage, MarketDataMessage, new_message, new_order_message,
  new_market_data_message,
}
use hft.Message.Bytes.{
  type_of_byte, status_of_byte, side_of_byte, order_type_of_byte, force_of_byte,
}
use hft.Message.Symbol.{c_string}
use hft.Message.Codec.RoundTrip.{IsEncodable, IsOrderEncodable, IsMarketDataEncodable}
use hft.Server.State.{Server, new_server, register_service, order_service}
use hft.Server.State as ServerState
use hft.Client.State.{Client, connected, new_client}
use hft.Client.State as ClientState
use hft.LatencyClient.State as LatencyState

abbrev pub heartbeat : Message
unfolding new_message
heartbeat = record new_message { message_id = 9; timestamp = 1000 }

-- Another one.
abbrev pub later : Message
later = record heartbeat { message_id = 10; timestamp = 1100 }

abbrev pub plain_order : Message
unfolding new_message
plain_order = record new_message { message_type = MessageType.order_new; payload_size = 1120 }

-- "AAPL"
abbrev pub aapl : List ℕ
aapl = 65 ∷ 65 ∷ 80 ∷ 76 ∷ replicate 12 0

abbrev pub aapl_text : List ℕ
aapl_text = 65 ∷ 65 ∷ 80 ∷ 76 ∷ []

pub aapl_ends : c_string aapl ≡ some aapl_text
unfolding c_string
aapl_ends = refl

abbrev pub priced : ℕ → OrderMessage
unfolding new_message new_order_message
priced price = record new_order_message {
  base = plain_order;
  symbol = aapl;
  quantity = 100;
  price = price;
}

abbrev pub order : OrderMessage
order = priced 150000

abbrev pub market_data : MarketDataMessage
unfolding new_market_data_message
market_data = record new_market_data_message { bid_price = 149900; ask_price = 150100 }

pub heartbeat-IsEncodable : IsEncodable heartbeat
unfolding new_message type_of_byte status_of_byte
heartbeat-IsEncodable = record {
  message_id_fits = omega arith;
  timestamp_fits = omega arith;
  sequence_number_fits = omega arith;
  message_type_fits = omega arith;
  message_type_storable = refl;
  status_fits = omega arith;
  status_storable = refl;
  source_id_fits = omega arith;
  destination_id_fits = omega arith;
  payload_size_fits = omega arith;
  payload_full = length-replicate 1024 zero;
}

pub later-IsEncodable : IsEncodable later
unfolding new_message type_of_byte status_of_byte
later-IsEncodable = record {
  message_id_fits = omega arith;
  timestamp_fits = omega arith;
  sequence_number_fits = omega arith;
  message_type_fits = omega arith;
  message_type_storable = refl;
  status_fits = omega arith;
  status_storable = refl;
  source_id_fits = omega arith;
  destination_id_fits = omega arith;
  payload_size_fits = omega arith;
  payload_full = length-replicate 1024 zero;
}

pub plain_order-IsEncodable : IsEncodable plain_order
unfolding new_message type_of_byte status_of_byte
plain_order-IsEncodable = record {
  message_id_fits = omega arith;
  timestamp_fits = omega arith;
  sequence_number_fits = omega arith;
  message_type_fits = omega arith;
  message_type_storable = refl;
  status_fits = omega arith;
  status_storable = refl;
  source_id_fits = omega arith;
  destination_id_fits = omega arith;
  payload_size_fits = omega arith;
  payload_full = length-replicate 1024 zero;
}

pub priced-IsOrderEncodable : (price : ℕ) → price < 2 ^ 64 → IsOrderEncodable (priced price)
unfolding new_order_message side_of_byte order_type_of_byte force_of_byte
priced-IsOrderEncodable price fits = record {
  base_encodable = plain_order-IsEncodable;
  symbol_full = refl;
  side_fits = omega arith;
  side_storable = refl;
  order_type_fits = omega arith;
  order_type_storable = refl;
  force_fits = omega arith;
  force_storable = refl;
  order_id_fits = omega arith;
  client_order_id_fits = omega arith;
  quantity_fits = omega arith;
  price_fits = fits;
  stop_price_fits = omega arith;
}

pub order-IsOrderEncodable : IsOrderEncodable order
order-IsOrderEncodable = priced-IsOrderEncodable 150000 (omega arith)

pub market_data-IsMarketDataEncodable : IsMarketDataEncodable market_data
unfolding new_market_data_message new_message type_of_byte status_of_byte
market_data-IsMarketDataEncodable = record {
  base_encodable = record {
    message_id_fits = omega arith;
    timestamp_fits = omega arith;
    sequence_number_fits = omega arith;
    message_type_fits = omega arith;
    message_type_storable = refl;
    status_fits = omega arith;
    status_storable = refl;
    source_id_fits = omega arith;
    destination_id_fits = omega arith;
    payload_size_fits = omega arith;
    payload_full = length-replicate 1024 zero;
  };
  symbol_full = refl;
  bid_price_fits = omega arith;
  bid_size_fits = omega arith;
  ask_price_fits = omega arith;
  ask_size_fits = omega arith;
  last_price_fits = omega arith;
  last_size_fits = omega arith;
  volume_fits = omega arith;
  high_price_fits = omega arith;
  low_price_fits = omega arith;
}

-- Whole numbers in the place of `double`.
abbrev pub server_floats : ServerState.Floats ℕ
server_floats = record {
  zero_double = 0;
  of_count = λ n. n;
  add = λ a b. a + b;
  multiply = λ a b. a * b;
  divide = λ a b. a / b;
  alpha = 1;
  rest_of_alpha = 99;
  thousand = 1000;
}

abbrev pub client_floats : ClientState.Floats ℕ
client_floats = record {
  zero_double = 0;
  of_count = λ n. n;
  divide = λ a b. a / b;
  thousand = 1000;
}

abbrev pub latency_floats : LatencyState.Floats ℕ
latency_floats = record {
  zero_double = 0;
  of_count = λ n. n;
  divide = λ a b. a / b;
  one = 1;
  thousand = 1000;
  p50_index = λ n. n / 2;
  p95_index = λ n. n * 95 / 100;
  p99_index = λ n. n * 99 / 100;
  p99_9_index = λ n. n * 999 / 1000;
}

abbrev pub order_server : Server ℕ
unfolding register_service
order_server =
    register_service MessageType.order_new (some order_service) (new_server server_floats)

-- A client that is connected on descriptor 3.
abbrev pub online : Client ℕ
unfolding new_client
online = record (new_client client_floats 1 0) {
  connection_state = connected;
  socket_fd = some 3;
  effects = ClientState.opened 3 ∷ [];
}
