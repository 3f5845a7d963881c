-- ===== src/Tests/Unterminated.antt =====
-- An order with no 0 from its symbol on, at a server whose buffer holds bytes of an earlier message.
use hft.Base.{
  ℕ, ◌≡◌, refl, List, [], ◌∷◌, ◌++◌, none, some, arith, replicate, drop, overwrite, length,
}
use hft.Message.Types.{OrderMessage, OrderSide, OrderType, TimeInForce, new_message}
use hft.Message.Bytes.{
  type_of_byte, status_of_byte, side_of_byte, order_type_of_byte, force_of_byte,
}
use hft.Message.Symbol.{c_string, symbol_offset, symbol_text}
use hft.Message.Codec.{
  encode_base, put, get, get_bytes, decode_base, decode_order, decode_order_fields,
}
use hft.Server.State.{Server}
use hft.Server.Receive.{receive_chunk}
use hft.Server.Content.{order, settle}
use hft.Server.Unterminated.{unterminated_symbol}
use hft.Tests.Samples.{server_floats, order_server, plain_order}

abbrev ones : List ℕ
unfolding encode_base new_message
ones = encode_base plain_order ++ replicate 60 1

abbrev order_of_ones : OrderMessage
order_of_ones = record {
  base = plain_order;
  symbol = replicate 16 1;
  side = OrderSide.buy;
  order_type = OrderType.market;
  time_in_force = TimeInForce.day;
  order_id = 72340172838076673;
  client_order_id = 72340172838076673;
  quantity = 16843009;
  price = 72340172838076673;
  stop_price = 72340172838076673;
}

decoded : decode_order ones ≡ some (order_of_ones, [])
unfolding decode_order encode_base new_message decode_base get put get_bytes decode_order_fields
    type_of_byte status_of_byte side_of_byte order_type_of_byte force_of_byte
decoded = refl

no_end : symbol_text ones ≡ none
unfolding symbol_text encode_base new_message put
no_end = refl

abbrev stale_server : Server ℕ
stale_server = record order_server { recv_buffer = replicate 1120 7 ++ 9 ∷ 9 ∷ 0 ∷ 8 ∷ [] }

unterminated_symbol_example :
    receive_chunk server_floats ones 700 stale_server
    ≡ (elim (c_string (drop (length ones) stale_server.recv_buffer)) [
      | none ↦ none
      | some stale ↦ some (
          settle server_floats ones 700
            (order (drop symbol_offset ones ++ stale) order_of_ones)
            (record stale_server { recv_buffer = overwrite stale_server.recv_buffer ones }))
    ])
unfolding encode_base new_message put
unterminated_symbol_example =
    unterminated_symbol server_floats 700 ones [] order_of_ones stale_server (omega arith) decoded
      refl no_end
