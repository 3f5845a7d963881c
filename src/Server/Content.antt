-- ===== src/Server/Content.antt =====
-- What a server promises for the bytes of one `recv`: an abstract reading of them, apart from the
-- buffer that they stand in, and the effects that each reading has.
use hft.Base.{
  ℕ, Bool, true, false, List, [], ◌∷◌, ◌++◌, Option, none, some, length, leb, if◌then◌else◌,
}
use hft.Message.Types.{Message, MessageType, OrderMessage, MarketDataMessage}
use hft.Message.Layout.{message_size, order_size, market_data_size}
use hft.Message.Symbol.{symbol_text}
use hft.Message.Codec.{decode_message, decode_order, decode_market_data}
use hft.Server.State.{
  Server, Floats, order_printed, market_data_printed, Service, order_service, market_data_service,
  Effect, incomplete, order_received, cancel_received, replace_received, market_data_broadcast,
  same_type,
}
use hft.Server.Receive.{is_order_type, update_stats, log_all}

pub data Content : Type 0 where
  partial : ℕ → Content  -- so many bytes were needed
  plain : Message → Content
  order : List ℕ → OrderMessage → Content  -- with the text of its symbol
  market : List ℕ → MarketDataMessage → Content
  unreadable : Content

abbrev pub order_content : Option (List ℕ) → Option (OrderMessage × List ℕ) → Content
order_content (some text) (some (o, _)) = order text o
order_content _ _ = unreadable

abbrev pub market_content : Option (List ℕ) → Option (MarketDataMessage × List ℕ) → Content
market_content (some text) (some (d, _)) = market text d
market_content _ _ = unreadable

abbrev pub by_type : ℕ → List ℕ → Option (List ℕ) → Option (Message × List ℕ) → Content
by_type n bs text none = unreadable
by_type n bs text (some (m, _)) =
    if is_order_type m.message_type
    then (if leb order_size n then order_content text (decode_order bs) else partial order_size)
    else (if same_type m.message_type MessageType.market_data
        then (if leb market_data_size n
            then market_content text (decode_market_data bs)
            else partial market_data_size)
        else plain m)

-- The one message that a chunk is read as, from its first bytes; the text of a symbol is given.
unfoldable pub read : List ℕ → Option (List ℕ) → Content
read bs text =
    if leb message_size (length bs)
    then by_type (length bs) bs text (decode_message bs)
    else partial message_size

-- The text is read from the chunk too, in which the symbol has to end.
unfoldable pub parse : List ℕ → Content
unfolding read
parse bs = read bs (symbol_text bs)

-- What an order with this type does at the order service.
abbrev pub order_log : MessageType → List ℕ → OrderMessage → List Effect
order_log MessageType.order_new text o =
    if leb order_size o.payload_size then order_received text o ∷ [] else []
order_log MessageType.order_cancel text o = cancel_received ∷ []
order_log MessageType.order_replace text o = replace_received ∷ []
order_log _ text o = []

abbrev pub service_log : Option Service → List ℕ → OrderMessage → List Effect
service_log (some order_service) text o = order_log o.message_type text o
service_log _ text o = []

abbrev pub broadcast_log : Option Service → List ℕ → MarketDataMessage → List Effect
broadcast_log (some market_data_service) text d =
    if leb market_data_size d.payload_size then market_data_broadcast text d ∷ [] else []
broadcast_log _ text d = []

-- The effects, newest first, for a map of services and a number of bytes read.
unfoldable pub log : (MessageType → Option Service) → ℕ → Content → List Effect
log services n (partial needed) = incomplete n needed ∷ []
log services n (plain m) = []
log services n (order text o) =
    service_log (services o.message_type) text o ++ order_printed text o ∷ []
log services n (market text d) =
    broadcast_log (services d.message_type) text d ++ market_data_printed text d ∷ []
log services n unreadable = []

abbrev pub is_readable : Content → Bool
is_readable unreadable = false
is_readable _ = true

-- Only a complete message is counted.
abbrev pub is_counted : Content → Bool
is_counted (partial _) = false
is_counted unreadable = false
is_counted _ = true

module _ {D : Type 0} (F : Floats D) where
  -- The server after the chunk.
  unfoldable pub settle : List ℕ → ℕ → Content → Server D → Server D
  unfolding log_all
  settle bs latency_ns c s =
      let logged = log_all (log s.services (length bs) c) s in
      if is_counted c then update_stats F latency_ns logged else logged

  -- The behaviour after an unreadable chunk is undefined.
  unfoldable pub outcome : List ℕ → ℕ → Content → Server D → Option (Server D)
  unfolding settle
  outcome bs latency_ns c s = if is_readable c then some (settle bs latency_ns c s) else none
