-- ===== src/LoadTest/Run.antt =====
-- src/hft_latency_test_100k.cpp: `create_test_order`, `send_order` and the sending loop of
-- `run_latency_test`. What the random generator, the clocks and `send` give to one turn of the loop
-- is an argument of the turn.
use hft.Base.{ℕ, Bool, List, [], ◌∷◌, ◌++◌, Option, none, some, take}
use hft.Message.Types.{
  Message, MessageType, MessageStatus, OrderMessage, OrderSide, OrderType, TimeInForce, new_message,
  new_order_message,
}
use hft.Message.Layout.{order_size}
use hft.Message.Codec.{encode_message, encode_order}
use hft.Client.Messages.{symbol_of}
use hft.SimpleClient.Send.{copy_truncated, is_whole}
use hft.LoadTest.State.{LoadTest, sent, emit}

unfoldable pub create_test_order : ℕ → ℕ → ℕ → List ℕ → OrderMessage
unfolding new_order_message symbol_of
create_test_order quantity price client_order_id symbol = record new_order_message {
  side = OrderSide.buy;
  order_type = OrderType.limit;
  time_in_force = TimeInForce.day;
  quantity = quantity;
  price = price;
  client_order_id = client_order_id;
  symbol = symbol_of symbol;
}

-- The message that `send_order` builds: as much of the order as fits in the payload.
unfoldable pub order_request : OrderMessage → Message
unfolding new_message copy_truncated
order_request order = copy_truncated (encode_order order) (record new_message {
  message_id = order.message_id;
  timestamp = order.timestamp;
  message_type = MessageType.order_new;
  status = MessageStatus.pending;
  source_id = 1;
  destination_id = 0;
  payload_size = order_size;
})

unfoldable pub send_order : OrderMessage → Option ℕ → LoadTest → LoadTest × Bool
unfolding order_request
send_order order answer t = (after, is_whole answer)
  where
    after : LoadTest
    after = elim t.socket_fd [
      | none ↦ t
      | some fd ↦ elim answer [
        | none ↦ t
        | some n ↦ emit (sent fd (take n (encode_message (order_request order)))) t
      ]
    ]

pub record Turn : Type 0 where
  pub id : ℕ
  pub now : ℕ
  pub quantity : ℕ
  pub price : ℕ
  pub client_order_id : ℕ
  pub symbol : List ℕ
  pub send_ns : ℕ
  pub bytes_sent : Option ℕ  -- the result of `send`

abbrev pub turn_order : Turn → OrderMessage
turn_order x = record order { base = record base { message_id = x.id; timestamp = x.now } }
  where
    order : OrderMessage
    order = create_test_order x.quantity x.price x.client_order_id x.symbol

    open order use {base}

-- The result of `send_order` is not looked at.
unfoldable pub send_turn : Turn → LoadTest → LoadTest
unfolding send_order
send_turn x t = record after { send_times = after.send_times ++ x.send_ns ∷ [] }
  where
    after : LoadTest
    after = (send_order (turn_order x) x.bytes_sent t).0

-- The loop, one turn for each message.
unfoldable pub send_turns : List Turn → LoadTest → LoadTest
unfolding send_turn
send_turns [] t = t
send_turns (x ∷ xs) t = send_turns xs (send_turn x t)
