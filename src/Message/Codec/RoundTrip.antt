-- ===== src/Message/Codec/RoundTrip.antt =====
-- What is encoded is decoded again.
use hft.Base.{ℕ, ◌^◌, ◌<◌, ◌≡◌, refl, List, ◌++◌, some, length, replicate, append_assoc, ◌∙◌}
use hft.Message.Types.{Message, OrderMessage, MarketDataMessage, payload_capacity}
use hft.Message.Bytes.{
  IsStorable, type_byte, type_of_byte, side_byte, side_of_byte, order_type_byte, order_type_of_byte,
  force_byte, force_of_byte, status_byte, status_of_byte,
}
use hft.Message.Codec.{
  encode_base, encode_message, encode_order, encode_order_fields, encode_market_data,
  encode_market_data_fields, decode_base, decode_message, decode_order, decode_order_fields,
  decode_market_data, decode_market_data_fields,
}
use hft.Message.Codec.Numbers.{>>=-some, >>=-put, >>=-bytes}

-- Every number fits its field, the payload has its size, and the enumerations are bytes.
pub record IsEncodable (m : Message) : Type 0 where
  pub message_id_fits : m.message_id < 2 ^ 64
  pub timestamp_fits : m.timestamp < 2 ^ 64
  pub sequence_number_fits : m.sequence_number < 2 ^ 32
  pub message_type_fits : type_byte m.message_type < 256
  pub message_type_storable : IsStorable type_byte type_of_byte m.message_type
  pub status_fits : status_byte m.status < 256
  pub status_storable : IsStorable status_byte status_of_byte m.status
  pub source_id_fits : m.source_id < 2 ^ 32
  pub destination_id_fits : m.destination_id < 2 ^ 32
  pub payload_size_fits : m.payload_size < 2 ^ 32
  pub payload_full : length m.payload ≡ payload_capacity

pub record IsOrderEncodable (o : OrderMessage) : Type 0 where
  pub base_encodable : IsEncodable o.base
  pub symbol_full : length o.symbol ≡ 16
  pub side_fits : side_byte o.side < 256
  pub side_storable : IsStorable side_byte side_of_byte o.side
  pub order_type_fits : order_type_byte o.order_type < 256
  pub order_type_storable : IsStorable order_type_byte order_type_of_byte o.order_type
  pub force_fits : force_byte o.time_in_force < 256
  pub force_storable : IsStorable force_byte force_of_byte o.time_in_force
  pub order_id_fits : o.order_id < 2 ^ 64
  pub client_order_id_fits : o.client_order_id < 2 ^ 64
  pub quantity_fits : o.quantity < 2 ^ 32
  pub price_fits : o.price < 2 ^ 64
  pub stop_price_fits : o.stop_price < 2 ^ 64

pub record IsMarketDataEncodable (d : MarketDataMessage) : Type 0 where
  pub base_encodable : IsEncodable d.base
  pub symbol_full : length d.symbol ≡ 16
  pub bid_price_fits : d.bid_price < 2 ^ 64
  pub bid_size_fits : d.bid_size < 2 ^ 32
  pub ask_price_fits : d.ask_price < 2 ^ 64
  pub ask_size_fits : d.ask_size < 2 ^ 32
  pub last_price_fits : d.last_price < 2 ^ 64
  pub last_size_fits : d.last_size < 2 ^ 32
  pub volume_fits : d.volume < 2 ^ 64
  pub high_price_fits : d.high_price < 2 ^ 64
  pub low_price_fits : d.low_price < 2 ^ 64

pub decode_base-encode_base :
    (m : Message) (rest : List ℕ)
    → IsEncodable m
    → decode_base (encode_base m ++ rest) ≡ some (m, rest)
unfolding encode_base decode_base
decode_base-encode_base m rest ok = simp append_assoc (
    >>=-put 8 m.message_id _ _ ok.message_id_fits
    ∙ (>>=-put 8 m.timestamp _ _ ok.timestamp_fits
        ∙ (>>=-put 4 m.sequence_number _ _ ok.sequence_number_fits
            ∙ (>>=-put 1 (type_byte m.message_type) _ _ ok.message_type_fits
                ∙ (>>=-put 1 (status_byte m.status) _ _ ok.status_fits
                    ∙ (>>=-bytes 2 (replicate 2 0) _ _ refl
                        ∙ (>>=-put 4 m.source_id _ _ ok.source_id_fits
                            ∙ (>>=-put 4 m.destination_id _ _ ok.destination_id_fits
                                ∙ (>>=-put 4 m.payload_size _ _ ok.payload_size_fits
                                    ∙ (>>=-bytes 1024 m.payload _ _ ok.payload_full
                                        ∙ rw
                                            (ok.message_type_storable, ok.status_storable)))))))))))

-- A cast of the bytes that `send` copies from a message gives the message back, and leaves what
-- follows it in the buffer, when its numbers fit their fields and its payload has 1024 bytes.
pub decode_message-encode_message :
    (m : Message) (rest : List ℕ)
    → IsEncodable m
    → decode_message (encode_message m ++ rest) ≡ some (m, rest)
unfolding encode_message decode_message
decode_message-encode_message m rest ok = rw (append_assoc (encode_base m) (replicate 4 0) rest) (
    >>=-some decode_base _ (decode_base-encode_base m (replicate 4 0 ++ rest) ok)
    ∙ >>=-bytes 4 (replicate 4 0) _ _ refl)

-- A cast of the bytes of an order gives the order back, and leaves what follows it in the
-- buffer, when its numbers fit their fields, its payload has 1024 bytes and its symbol 16.
pub decode_order-encode_order :
    (o : OrderMessage) (rest : List ℕ)
    → IsOrderEncodable o
    → decode_order (encode_order o ++ rest) ≡ some (o, rest)
unfolding encode_order decode_order encode_order_fields decode_order_fields
decode_order-encode_order o rest ok = simp append_assoc (
    >>=-some decode_base _ (decode_base-encode_base o.base _ ok.base_encodable)
    ∙ (>>=-bytes 16 o.symbol _ _ ok.symbol_full
        ∙ (>>=-put 1 (side_byte o.side) _ _ ok.side_fits
            ∙ (>>=-put 1 (order_type_byte o.order_type) _ _ ok.order_type_fits
                ∙ (>>=-put 1 (force_byte o.time_in_force) _ _ ok.force_fits
                    ∙ (>>=-bytes 1 (replicate 1 0) _ _ refl
                        ∙ (>>=-put 8 o.order_id _ _ ok.order_id_fits
                            ∙ (>>=-put 8 o.client_order_id _ _ ok.client_order_id_fits
                                ∙ (>>=-put 4 o.quantity _ _ ok.quantity_fits
                                    ∙ (>>=-bytes 4 (replicate 4 0) _ _ refl
                                        ∙ (>>=-put 8 o.price _ _ ok.price_fits
                                            ∙ (>>=-put 8 o.stop_price _ _ ok.stop_price_fits
                                                ∙ rw (
                                                  ok.side_storable, ok.order_type_storable,
                                                  ok.force_storable,
                                                )))))))))))))

-- A cast of the bytes of market data gives it back, and leaves what follows it in the buffer,
-- when its numbers fit their fields, its payload has 1024 bytes and its symbol 16.
pub decode_market_data-encode_market_data :
    (d : MarketDataMessage) (rest : List ℕ)
    → IsMarketDataEncodable d
    → decode_market_data (encode_market_data d ++ rest) ≡ some (d, rest)
unfolding encode_market_data decode_market_data encode_market_data_fields decode_market_data_fields
decode_market_data-encode_market_data d rest ok = simp append_assoc (
    >>=-some decode_base _ (decode_base-encode_base d.base _ ok.base_encodable)
    ∙ (>>=-bytes 16 d.symbol _ _ ok.symbol_full
        ∙ (>>=-bytes 4 (replicate 4 0) _ _ refl
            ∙ (>>=-put 8 d.bid_price _ _ ok.bid_price_fits
                ∙ (>>=-put 4 d.bid_size _ _ ok.bid_size_fits
                    ∙ (>>=-bytes 4 (replicate 4 0) _ _ refl
                        ∙ (>>=-put 8 d.ask_price _ _ ok.ask_price_fits
                            ∙ (>>=-put 4 d.ask_size _ _ ok.ask_size_fits
                                ∙ (>>=-bytes 4 (replicate 4 0) _ _ refl
                                    ∙ (>>=-put 8 d.last_price _ _ ok.last_price_fits
                                        ∙ (>>=-put 4 d.last_size _ _ ok.last_size_fits
                                            ∙ (>>=-bytes 4 (replicate 4 0) _ _ refl
                                                ∙ (>>=-put 8 d.volume _ _ ok.volume_fits
                                                    ∙ (>>=-put 8 d.high_price _ _ ok.high_price_fits
                                                        ∙ >>=-put 8 d.low_price _ _
                                                            ok.low_price_fits))))))))))))))
