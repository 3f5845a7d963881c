-- ===== src/Server/Services.antt =====
-- src/hft_server.cpp: `OrderService` and `MarketDataService`. A message is the memory that the
-- reference points to; a service casts it again. `none` is a read past the end of the buffer, by
-- a cast or by the printing of a symbol.
use hft.Base.{◌>>=◌, ℕ, true, false, List, [], ◌∷◌, Option, some, leb, if◌then◌else◌}
use hft.Message.Types.{Message, MessageType, OrderMessage, MarketDataMessage}
use hft.Message.Layout.{order_size, market_data_size}
use hft.Message.Symbol.{symbol_text}
use hft.Message.Codec.{decode_order, decode_market_data}
use hft.Server.State.{
  Connection, Service, order_service, market_data_service, Effect, order_received, cancel_received,
  replace_received, market_data_broadcast, same_type,
}

-- The response that is built here is not sent: only the log line remains.
-- It shows the symbol as `text`.
abbrev pub handle_new_order : List ℕ → OrderMessage → List Effect
handle_new_order text order = order_received text order ∷ []

abbrev pub handle_cancel_order : List Effect
handle_cancel_order = cancel_received ∷ []

abbrev pub handle_replace_order : List Effect
handle_replace_order = replace_received ∷ []

abbrev pub broadcast_market_data : List ℕ → MarketDataMessage → List Effect
broadcast_market_data text market_data = market_data_broadcast text market_data ∷ []

-- The cast of the message to the larger structure, and the handler that gets it and prints the
-- symbol.
unfoldable pub cast_order : List ℕ → Option (List Effect)
unfolding symbol_text
cast_order memory = do
  (order, _) ← decode_order memory
  text ← symbol_text memory
  some (handle_new_order text order)

unfoldable pub cast_market_data : List ℕ → Option (List Effect)
unfolding symbol_text
cast_market_data memory = do
  (market_data, _) ← decode_market_data memory
  text ← symbol_text memory
  some (broadcast_market_data text market_data)

-- The `switch` of `OrderService::process_message`.
order_switch : MessageType → ℕ → List ℕ → Option (List Effect)
unfolding cast_order
order_switch MessageType.order_new payload_size memory =
    if leb order_size payload_size then cast_order memory else some []
order_switch MessageType.order_cancel payload_size memory = some handle_cancel_order
order_switch MessageType.order_replace payload_size memory = some handle_replace_order
order_switch _ payload_size memory = some []

-- `MarketDataService::process_message`.
market_data_test : MessageType → ℕ → List ℕ → Option (List Effect)
unfolding cast_market_data
market_data_test type payload_size memory =
    if same_type type MessageType.market_data
    then (if leb market_data_size payload_size then cast_market_data memory else some [])
    else some []

unfoldable pub process_message : Service → Message → List ℕ → Option (List Effect)
unfolding order_switch market_data_test
process_message order_service msg memory = order_switch msg.message_type msg.payload_size memory
process_message market_data_service msg memory =
    market_data_test msg.message_type msg.payload_size memory

unfoldable pub on_connection_established : Service → Connection → Connection
on_connection_established order_service conn = record conn { is_authenticated = true }
on_connection_established market_data_service conn = conn

unfoldable pub on_connection_closed : Service → Connection → Connection
on_connection_closed order_service conn = record conn { is_authenticated = false }
on_connection_closed market_data_service conn = conn
