-- ===== src/Message/Codec.antt =====
-- The structures of inc/message.h as bytes: what `send(&msg, sizeof(msg))` and `memcpy` copy out, and
-- what a `reinterpret_cast` of a buffer reads. Numbers are little-endian. Padding is written as 0,
-- where C++ leaves it indeterminate, and a cast passes over it. A read past the end of the bytes
-- is a fault, `none`.
pub mod Numbers
pub mod RoundTrip
pub mod Extent
pub mod Prefix
use hft.Base.{ℕ, zero, suc, ◌+◌, ◌*◌, ◌/◌, ◌%◌, List, [], ◌∷◌, ◌++◌, Option, none, some, replicate}
use hft.Message.Types.{Message, OrderMessage, MarketDataMessage}
use hft.Message.Bytes.{
  type_byte, type_of_byte, side_byte, side_of_byte, order_type_byte, order_type_of_byte, force_byte,
  force_of_byte, status_byte, status_of_byte,
}

unfoldable pub put : ℕ → ℕ → List ℕ
put zero v = []
put (suc n) v = v % 256 ∷ put n (v / 256)

-- A reader takes bytes from the front, and returns its value and the rest.
abbrev pub Reader : Type 0 → Type 0
Reader A = List ℕ → Option (A × List ℕ)

abbrev pub pure : {A : Type 0} → A → Reader A
pure a bs = some (a, bs)

infixl 5 ◌>>=◌ ◌>>◌
abbrev pub ◌>>=◌ : {A B : Type 0} → Reader A → (A → Reader B) → Reader B
◌>>=◌ m f bs = elim (m bs) [ none ↦ none | some (a, rest) ↦ f a rest ]

abbrev pub ◌>>◌ : {A B : Type 0} → Reader A → Reader B → Reader B
m >> k = m >>= λ _. k

unfoldable pub get : ℕ → Reader ℕ
get zero bs = some (0, bs)
get (suc n) [] = none
get (suc n) (b ∷ bs) = elim (get n bs) [ none ↦ none | some (v, rest) ↦ some (b + 256 * v, rest) ]

-- An array of `n` bytes.
unfoldable pub get_bytes : ℕ → Reader (List ℕ)
get_bytes zero bs = some ([], bs)
get_bytes (suc n) [] = none
get_bytes (suc n) (b ∷ bs) = elim (get_bytes n bs) [
  | none ↦ none
  | some (xs, rest) ↦ some (b ∷ xs, rest)
]

-- The data of a `Message`, without its tail padding.
unfoldable pub encode_base : Message → List ℕ
encode_base m =
    put 8 m.message_id
    ++ (put 8 m.timestamp
        ++ (put 4 m.sequence_number
            ++ (put 1 (type_byte m.message_type)
                ++ (put 1 (status_byte m.status)
                    ++ (replicate 2 0
                        ++ (put 4 m.source_id
                            ++ (put 4 m.destination_id ++ (put 4 m.payload_size ++ m.payload))))))))

unfoldable pub encode_message : Message → List ℕ
encode_message m = encode_base m ++ replicate 4 0

unfoldable pub encode_order_fields : OrderMessage → List ℕ
encode_order_fields o =
    o.symbol
    ++ (put 1 (side_byte o.side)
        ++ (put 1 (order_type_byte o.order_type)
            ++ (put 1 (force_byte o.time_in_force)
                ++ (replicate 1 0
                    ++ (put 8 o.order_id
                        ++ (put 8 o.client_order_id
                            ++ (put 4 o.quantity
                                ++ (replicate 4 0 ++ (put 8 o.price ++ put 8 o.stop_price)))))))))

unfoldable pub encode_order : OrderMessage → List ℕ
encode_order o = encode_base o.base ++ encode_order_fields o

unfoldable pub encode_market_data_fields : MarketDataMessage → List ℕ
encode_market_data_fields d =
    d.symbol
    ++ (replicate 4 0
        ++ (put 8 d.bid_price
            ++ (put 4 d.bid_size
                ++ (replicate 4 0
                    ++ (put 8 d.ask_price
                        ++ (put 4 d.ask_size
                            ++ (replicate 4 0
                                ++ (put 8 d.last_price
                                    ++ (put 4 d.last_size
                                        ++ (replicate 4 0
                                            ++ (put 8 d.volume
                                                ++ (put 8 d.high_price
                                                    ++ put 8 d.low_price))))))))))))

unfoldable pub encode_market_data : MarketDataMessage → List ℕ
encode_market_data d = encode_base d.base ++ encode_market_data_fields d

unfoldable pub decode_base : Reader Message
decode_base = do
  message_id ← get 8
  timestamp ← get 8
  sequence_number ← get 4
  message_type ← get 1
  status ← get 1
  get_bytes 2
  source_id ← get 4
  destination_id ← get 4
  payload_size ← get 4
  payload ← get_bytes 1024
  pure (record {
    message_id = message_id;
    timestamp = timestamp;
    sequence_number = sequence_number;
    message_type = type_of_byte message_type;
    status = status_of_byte status;
    source_id = source_id;
    destination_id = destination_id;
    payload_size = payload_size;
    payload = payload;
  })

unfoldable pub decode_message : Reader Message
decode_message = do m ← decode_base; get_bytes 4; pure m

unfoldable pub decode_order_fields : Message → Reader OrderMessage
decode_order_fields base = do
  symbol ← get_bytes 16
  side ← get 1
  order_type ← get 1
  time_in_force ← get 1
  get_bytes 1
  order_id ← get 8
  client_order_id ← get 8
  quantity ← get 4
  get_bytes 4
  price ← get 8
  stop_price ← get 8
  pure (record {
    base = base;
    symbol = symbol;
    side = side_of_byte side;
    order_type = order_type_of_byte order_type;
    time_in_force = force_of_byte time_in_force;
    order_id = order_id;
    client_order_id = client_order_id;
    quantity = quantity;
    price = price;
    stop_price = stop_price;
  })

unfoldable pub decode_order : Reader OrderMessage
decode_order = do base ← decode_base; decode_order_fields base

unfoldable pub decode_market_data_fields : Message → Reader MarketDataMessage
decode_market_data_fields base = do
  symbol ← get_bytes 16
  get_bytes 4
  bid_price ← get 8
  bid_size ← get 4
  get_bytes 4
  ask_price ← get 8
  ask_size ← get 4
  get_bytes 4
  last_price ← get 8
  last_size ← get 4
  get_bytes 4
  volume ← get 8
  high_price ← get 8
  low_price ← get 8
  pure (record {
    base = base;
    symbol = symbol;
    bid_price = bid_price;
    bid_size = bid_size;
    ask_price = ask_price;
    ask_size = ask_size;
    last_price = last_price;
    last_size = last_size;
    volume = volume;
    high_price = high_price;
    low_price = low_price;
  })

unfoldable pub decode_market_data : Reader MarketDataMessage
decode_market_data = do base ← decode_base; decode_market_data_fields base
