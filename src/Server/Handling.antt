-- ===== src/Server/Handling.antt =====
-- src/hft_server.cpp: what the registered service does with a message, in the words of `Content`.
use hft.Base.{
  Bool, if_true, ◌∙◌, ℕ, ◌≡◌, refl, true, false, List, [], ◌∷◌, Option, none, some, arith, leb,
  if◌then◌else◌,
}
use hft.Message.Types.{Message, MessageType, OrderMessage, MarketDataMessage}
use hft.Message.Layout.{order_size, market_data_size}
use hft.Message.Symbol.{symbol_text}
use hft.Message.Codec.{decode_order, decode_market_data}
use hft.Server.State.{
  Server, Service, Effect, order_service, market_data_service, order_received,
  market_data_broadcast, same_type,
}
use hft.Server.Services.{cast_order, cast_market_data, process_message}
use hft.Server.Receive.{is_order_type, find_and_process}
use hft.Server.Content.{order_log, service_log, broadcast_log}

guarded :
    (b : Bool) (x : Option (List Effect)) (es : List Effect)
    → x ≡ some es
    → (if b then x else some []) ≡ some (if b then es else [])
guarded true x es c = c
guarded false x es c = refl

module _ (memory : List ℕ) where
  cast_order_lem :
      (o : OrderMessage) (r text : List ℕ)
      → decode_order memory ≡ some (o, r)
      → symbol_text memory ≡ some text
      → cast_order memory ≡ some (order_received text o ∷ [])
  unfolding cast_order
  cast_order_lem o r text e p = rw (e, p) refl

  cast_market_data_lem :
      (d : MarketDataMessage) (r text : List ℕ)
      → decode_market_data memory ≡ some (d, r)
      → symbol_text memory ≡ some text
      → cast_market_data memory ≡ some (market_data_broadcast text d ∷ [])
  unfolding cast_market_data
  cast_market_data_lem d r text e p = rw (e, p) refl

  -- What the order service does with an order.
  at_order_service :
      (m : Message) (o : OrderMessage) (text : List ℕ) (k : MessageType)
      → cast_order memory ≡ some (order_received text o ∷ [])
      → process_message order_service
          (record m { message_type = k; payload_size = o.payload_size })
          memory
        ≡ some (order_log k text o)
  unfolding process_message
  at_order_service m o text MessageType.order_new c =
      guarded (leb order_size o.payload_size) (cast_order memory) (order_received text o ∷ []) c
  at_order_service m o text k c = refl

  -- A service that is registered for the type of the other messages does nothing.
  at_wrong_service :
      (m : Message)
      → is_order_type m.message_type ≡ true
      → process_message market_data_service m memory ≡ some []
  unfolding process_message
  at_wrong_service m t = ground arith

  at_wrong_order_service :
      (m : Message) (k : MessageType)
      → same_type k MessageType.market_data ≡ true
      → process_message order_service (record m { message_type = k }) memory ≡ some []
  unfolding process_message
  at_wrong_order_service m MessageType.order_new t = absurd (cc t)
  at_wrong_order_service m MessageType.order_cancel t = absurd (cc t)
  at_wrong_order_service m MessageType.order_replace t = absurd (cc t)
  at_wrong_order_service m k t = refl

  at_market_service :
      (d : MarketDataMessage) (text : List ℕ)
      → same_type d.message_type MessageType.market_data ≡ true
      → cast_market_data memory ≡ some (market_data_broadcast text d ∷ [])
      → process_message market_data_service d.base memory
        ≡ some
            (if leb market_data_size d.payload_size then market_data_broadcast text d ∷ [] else [])
  unfolding process_message
  at_market_service d text t c =
      if_true _ _ t
      ∙ guarded (leb market_data_size d.payload_size) (cast_market_data memory)
          (market_data_broadcast text d ∷ []) c

  find_order :
      (service : Option Service) (o : OrderMessage) (text : List ℕ)
      → cast_order memory ≡ some (order_received text o ∷ [])
      → is_order_type o.message_type ≡ true
      → (elim service [ none ↦ some [] | some v ↦ process_message v o.base memory ])
        ≡ some (service_log service text o)
  find_order none o text c t = refl
  find_order (some order_service) o text c t = at_order_service o.base o text o.message_type c
  find_order (some market_data_service) o text c t = at_wrong_service o.base t

  find_market_data :
      (service : Option Service) (d : MarketDataMessage) (text : List ℕ)
      → cast_market_data memory ≡ some (market_data_broadcast text d ∷ [])
      → same_type d.message_type MessageType.market_data ≡ true
      → (elim service [ none ↦ some [] | some v ↦ process_message v d.base memory ])
        ≡ some (broadcast_log service text d)
  find_market_data none d text c t = refl
  find_market_data (some order_service) d text c t = at_wrong_order_service d.base d.message_type t
  find_market_data (some market_data_service) d text c t = at_market_service d text t c

module _ {D : Type 0} (s : Server D) (memory : List ℕ) where
  pub process_order_lem :
      (o : OrderMessage) (r : List ℕ)
      → decode_order memory ≡ some (o, r)
      → is_order_type o.message_type ≡ true
      → (text : List ℕ) → symbol_text memory ≡ some text
      → find_and_process o.base memory s ≡ some (service_log (s.services o.message_type) text o)
  unfolding find_and_process
  process_order_lem o r e t text p =
      find_order memory (s.services o.message_type) o text (cast_order_lem memory o r text e p) t

  pub process_market_lem :
      (d : MarketDataMessage) (r : List ℕ)
      → decode_market_data memory ≡ some (d, r)
      → same_type d.message_type MessageType.market_data ≡ true
      → (text : List ℕ) → symbol_text memory ≡ some text
      → find_and_process d.base memory s ≡ some (broadcast_log (s.services d.message_type) text d)
  unfolding find_and_process
  process_market_lem d r e t text p =
      find_market_data memory (s.services d.message_type) d text
        (cast_market_data_lem memory d r text e p) t

  pub process_base_lem :
      (m : Message)
      → is_order_type m.message_type ≡ false
      → same_type m.message_type MessageType.market_data ≡ false
      → find_and_process m memory s ≡ some []
  unfolding find_and_process
  process_base_lem m t u = ground arith
