-- ===== src/Programs/Service.antt =====
-- src/main.cpp with src/hft_server.cpp: what the server that `main` starts does for its clients.
use hft.Base.{ℕ, ◌≤◌, ◌≡◌, ap, ◌∙◌, List, ◌++◌, Option, some, overwrite, arith}
use hft.Message.Types.{MessageType, OrderMessage}
use hft.Message.Layout.{order_size}
use hft.Message.Codec.{encode_order}
use hft.Message.Symbol.{c_string}
use hft.Message.Codec.RoundTrip.{IsOrderEncodable}
use hft.Server.State.{
  Server, Service, Floats, order_service, order_received, order_printed, emit, new_server,
  register_service,
}
use hft.Server.Lifecycle.{InitAnswers, initialize, start}
use hft.Server.Receive.{receive_chunk, update_stats}
use hft.Server.Run.{Reach}
use hft.Server.Silence.{sends, Reach-Quiet}
use hft.Server.Delivery.{order_delivered}
use hft.Programs.Arguments.{Config}
use hft.Programs.Server.{register_services, started_server}

module _ {D : Type 0} (F : Floats D) where
  started_server-services :
      (a : InitAnswers) (c : Config)
      → (started_server F a c).services MessageType.order_new ≡ some order_service
  unfolding started_server register_services register_service start
  started_server-services a c = ground arith

  started_server-sends : (a : InitAnswers) (c : Config) → sends (started_server F a c).effects ≡ 0
  unfolding started_server register_services register_service initialize start new_server sends
  started_server-sends a c = ground arith

  -- At every point of a run of the server that `main` has started, an order of type ORDER_NEW
  -- that arrives whole, with numbers that fit their fields, a payload size of at least
  -- `sizeof(OrderMessage)` and a symbol that is `text` up to a 0 in its array, is printed with
  -- that text, reaches the order service with every field as it was sent, and is counted once.
  pub order_delivered_in_service :
      (a : InitAnswers) (c : Config) (t : Server D) (latency_ns : ℕ) (o : OrderMessage)
      (rest text : List ℕ)
      → Reach F (started_server F a c) t
      → IsOrderEncodable o
      → c_string o.symbol ≡ some text
      → o.message_type ≡ MessageType.order_new
      → order_size ≤ o.payload_size
      → receive_chunk F (encode_order o ++ rest) latency_ns t
        ≡ some (
            update_stats F latency_ns (
              emit (order_received text o) (
                emit
                  (order_printed text o)
                  (record t { recv_buffer = overwrite t.recv_buffer (encode_order o ++ rest) }))))
  order_delivered_in_service a c t latency_ns o rest text r ok ends is_new big =
      order_delivered F latency_ns t o rest text ok ends is_new big (
        ap (λ (table : MessageType → Option Service). table MessageType.order_new)
          (Reach-Quiet F r).same_services
        ∙ started_server-services a c)

  -- At no point of a run of the server that `main` has started has it written anything to a
  -- connection: no message is ever answered.
  pub never_sends :
      (a : InitAnswers) (c : Config) (t : Server D)
      → Reach F (started_server F a c) t
      → sends t.effects ≡ 0
  never_sends a c t r = (Reach-Quiet F r).unsent ∙ started_server-sends a c
