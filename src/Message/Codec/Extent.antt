-- ===== src/Message/Codec/Extent.antt =====
-- How many bytes a structure takes, and that a cast reads these and no others.
use hft.Base.{◌≡◌, arith, length, length-append, length-replicate}
use hft.Message.Types.{Message, OrderMessage, MarketDataMessage, payload_capacity}
use hft.Message.Layout.{message_size, order_size, market_data_size}
use hft.Message.Codec.{
  encode_base, encode_message, encode_order, encode_order_fields, encode_market_data,
  encode_market_data_fields, decode_base, decode_message, decode_order, decode_order_fields,
  decode_market_data, decode_market_data_fields,
}
use hft.Message.Codec.Numbers.{Reads, length-put, get-Reads, get_bytes-Reads, pure-Reads, >>=-Reads}

pub decode_base-Reads : Reads 1060 decode_base
unfolding decode_base
decode_base-Reads = >>=-Reads 8 _ _ _ (get-Reads 8) λ _. >>=-Reads 8 _ _ _ (get-Reads 8) λ _.
    >>=-Reads 4 _ _ _ (get-Reads 4) λ _. >>=-Reads 1 _ _ _ (get-Reads 1) λ _.
      >>=-Reads 1 _ _ _ (get-Reads 1) λ _. >>=-Reads 2 _ _ _ (get_bytes-Reads 2) λ _.
        >>=-Reads 4 _ _ _ (get-Reads 4) λ _. >>=-Reads 4 _ _ _ (get-Reads 4) λ _.
          >>=-Reads 4 _ _ _ (get-Reads 4)
            λ _. >>=-Reads 1024 0 _ _ (get_bytes-Reads 1024) λ _. pure-Reads _

-- A cast to `Message` reads the first `sizeof(Message)` bytes and depends on no other.
pub decode_message-Reads : Reads message_size decode_message
unfolding decode_message
decode_message-Reads =
    >>=-Reads 1060 4 _ _ decode_base-Reads
      λ _. >>=-Reads 4 0 _ _ (get_bytes-Reads 4) λ _. pure-Reads _

pub decode_order_fields-Reads : (m : Message) → Reads 60 (decode_order_fields m)
unfolding decode_order_fields
decode_order_fields-Reads m = >>=-Reads 16 _ _ _ (get_bytes-Reads 16) λ _.
    >>=-Reads 1 _ _ _ (get-Reads 1) λ _. >>=-Reads 1 _ _ _ (get-Reads 1) λ _.
      >>=-Reads 1 _ _ _ (get-Reads 1) λ _. >>=-Reads 1 _ _ _ (get_bytes-Reads 1) λ _.
        >>=-Reads 8 _ _ _ (get-Reads 8) λ _. >>=-Reads 8 _ _ _ (get-Reads 8) λ _.
          >>=-Reads 4 _ _ _ (get-Reads 4) λ _. >>=-Reads 4 _ _ _ (get_bytes-Reads 4) λ _.
            >>=-Reads 8 _ _ _ (get-Reads 8) λ _. >>=-Reads 8 0 _ _ (get-Reads 8) λ _. pure-Reads _

pub decode_order-Reads : Reads order_size decode_order
unfolding decode_order
decode_order-Reads = >>=-Reads 1060 60 _ _ decode_base-Reads decode_order_fields-Reads

pub decode_market_data_fields-Reads : (m : Message) → Reads 92 (decode_market_data_fields m)
unfolding decode_market_data_fields
decode_market_data_fields-Reads m = >>=-Reads 16 _ _ _ (get_bytes-Reads 16) λ _.
    >>=-Reads 4 _ _ _ (get_bytes-Reads 4) λ _. >>=-Reads 8 _ _ _ (get-Reads 8) λ _.
      >>=-Reads 4 _ _ _ (get-Reads 4) λ _. >>=-Reads 4 _ _ _ (get_bytes-Reads 4) λ _.
        >>=-Reads 8 _ _ _ (get-Reads 8) λ _. >>=-Reads 4 _ _ _ (get-Reads 4) λ _.
          >>=-Reads 4 _ _ _ (get_bytes-Reads 4) λ _. >>=-Reads 8 _ _ _ (get-Reads 8) λ _.
            >>=-Reads 4 _ _ _ (get-Reads 4) λ _. >>=-Reads 4 _ _ _ (get_bytes-Reads 4) λ _.
              >>=-Reads 8 _ _ _ (get-Reads 8) λ _.
                >>=-Reads 8 _ _ _ (get-Reads 8)
                  λ _. >>=-Reads 8 0 _ _ (get-Reads 8) λ _. pure-Reads _

pub decode_market_data-Reads : Reads market_data_size decode_market_data
unfolding decode_market_data
decode_market_data-Reads = >>=-Reads 1060 92 _ _ decode_base-Reads decode_market_data_fields-Reads

pub length-encode_base :
    (m : Message) → length m.payload ≡ payload_capacity → length (encode_base m) ≡ 1060
unfolding encode_base
length-encode_base m h = omega (arith, length-append {0}, length-put, length-replicate {0})

pub length-encode_message :
    (m : Message) → length m.payload ≡ payload_capacity → length (encode_message m) ≡ message_size
unfolding encode_message
length-encode_message m h = omega (arith, length-append {0}, length-encode_base m h)

pub length-encode_order :
    (o : OrderMessage)
    → length o.payload ≡ payload_capacity
    → length o.symbol ≡ 16
    → length (encode_order o) ≡ order_size
unfolding encode_order encode_order_fields
length-encode_order o h k =
    omega (arith, length-append {0}, length-put, length-encode_base o.base h)

pub length-encode_market_data :
    (d : MarketDataMessage)
    → length d.payload ≡ payload_capacity
    → length d.symbol ≡ 16
    → length (encode_market_data d) ≡ market_data_size
unfolding encode_market_data encode_market_data_fields
length-encode_market_data d h k =
    omega (arith, length-append {0}, length-put, length-encode_base d.base h)
