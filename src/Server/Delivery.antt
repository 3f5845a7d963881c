-- ===== src/Server/Delivery.antt =====
-- What becomes of a message that a client sends, from its bytes to the service.
use hft.Base.{
  ℕ, ◌≤◌, ◌≡◌, refl, sym, ap, ◌∙◌, true, false, List, [], ◌++◌, some, arith, overwrite, drop,
  drop-append, append_assoc, length-append, append-nil, subst,
}
use hft.Message.Types.{Message, MessageType, OrderMessage}
use hft.Message.Layout.{message_size, order_size}
use hft.Message.Codec.{
  encode_base, encode_message, encode_order, encode_order_fields, decode_message,
}
use hft.Message.Symbol.{c_string, symbol_offset, symbol_text, c_string-append}
use hft.Message.Codec.RoundTrip.{
  IsEncodable, IsOrderEncodable, decode_message-encode_message, decode_order-encode_order,
}
use hft.Message.Codec.Extent.{
  length-encode_base, length-encode_message, length-encode_order, decode_message-Reads,
}
use hft.Message.Codec.Prefix.{Reads-prefix, decode_order-base}
use hft.Server.State.{
  Server, Floats, order_service, order_received, order_printed, incomplete, emit, same_type,
}
use hft.Server.Receive.{is_order_type, receive_chunk, update_stats, log_all}
use hft.Server.Content.{parse, log, settle, plain, order, partial}
use hft.Server.Refinement.{receive_chunk-parse}

decode_message-encode_order :
    (o : OrderMessage) (rest : List ℕ)
    → IsOrderEncodable o
    → (r : List ℕ) × (decode_message (encode_order o ++ rest) ≡ some (o.base, r))
decode_message-encode_order o rest ok =
    let full = length-encode_order o ok.base_encodable.payload_full ok.symbol_full in
    let (m, e) =
      Reads-prefix message_size decode_message decode_message-Reads (encode_order o)
        (omega (arith, full)) in
    let same_base =
      decode_order-base (encode_order o ++ rest) m o _ _ (e rest)
        (decode_order-encode_order o rest ok) in
    let r : List ℕ = drop message_size (encode_order o) ++ rest in
    (r, e rest ∙ ap (λ (x : Message). some (x, r)) (sym same_base))

pub parse-encode_order :
    (o : OrderMessage) (rest text : List ℕ)
    → IsOrderEncodable o
    → is_order_type o.message_type ≡ true
    → symbol_text (encode_order o ++ rest) ≡ some text
    → parse (encode_order o ++ rest) ≡ order text o
unfolding parse
parse-encode_order o rest text ok t p =
    let (r, e) = decode_message-encode_order o rest ok in
    ground (
      arith,
      p,
      decode_order-encode_order o rest ok,
      length-encode_order o ok.base_encodable.payload_full ok.symbol_full,
      length-append (encode_order o) rest,
    )

parse-encode_message :
    (m : Message) (rest : List ℕ)
    → IsEncodable m
    → is_order_type m.message_type ≡ false
    → same_type m.message_type MessageType.market_data ≡ false
    → parse (encode_message m ++ rest) ≡ plain m
unfolding parse
parse-encode_message m rest ok t u = ground (
  arith,
  decode_message-encode_message m rest ok,
  length-encode_message m ok.payload_full,
  length-append (encode_message m) rest,
)

-- The client classes send `sizeof(Message)` bytes for an order as well.
parse-encode_message_order :
    (m : Message)
    → IsEncodable m
    → is_order_type m.message_type ≡ true
    → parse (encode_message m) ≡ partial order_size
unfolding parse
parse-encode_message_order m ok t = ground (
  arith,
  subst (λ (bs : List ℕ). decode_message bs ≡ some (m, [])) (append-nil (encode_message m))
      (decode_message-encode_message m [] ok),
  length-encode_message m ok.payload_full,
)

-- A symbol with a 0 in its array is printed up to it.
pub symbol_text-encode_order :
    (o : OrderMessage) (rest text : List ℕ)
    → IsOrderEncodable o
    → c_string o.symbol ≡ some text
    → symbol_text (encode_order o ++ rest) ≡ some text
unfolding symbol_text encode_order encode_order_fields
symbol_text-encode_order o rest text ok ends =
    let rows = encode_order_fields o in
    let base = encode_base o.base in
    ap (λ (l : List ℕ). c_string (drop symbol_offset l)) (append_assoc base rows rest)
    ∙ ap c_string (
        drop-append symbol_offset base (rows ++ rest)
          (length-encode_base o.base ok.base_encodable.payload_full))
    ∙ ap c_string (append_assoc o.symbol _ rest)
    ∙ c_string-append o.symbol _ text ends

module _ {D : Type 0} (F : Floats D) (latency_ns : ℕ) (s : Server D) where
  -- An order that arrives whole, with numbers that fit their fields, of type ORDER_NEW and with
  -- a payload size of at least `sizeof(OrderMessage)`, and with a symbol that is `text` up to a 0
  -- in its array, at a server whose order service is registered for that type, is printed with
  -- that text, reaches the service with every field as it was sent, and is counted once, whatever
  -- follows it in the bytes that the same `recv` returned.
  pub order_delivered :
      (o : OrderMessage) (rest text : List ℕ)
      → IsOrderEncodable o
      → c_string o.symbol ≡ some text
      → o.message_type ≡ MessageType.order_new
      → order_size ≤ o.payload_size
      → s.services MessageType.order_new ≡ some order_service
      → receive_chunk F (encode_order o ++ rest) latency_ns s
        ≡ some (
            update_stats F latency_ns (
              emit (order_received text o) (
                emit
                  (order_printed text o)
                  (record s { recv_buffer = overwrite s.recv_buffer (encode_order o ++ rest) }))))
  unfolding settle log log_all
  order_delivered o rest text ok p t big service =
      let read_as =
        parse-encode_order o rest text ok (rw t refl) (symbol_text-encode_order o rest text ok p) in
      receive_chunk-parse F (encode_order o ++ rest) latency_ns s (rw read_as refl)
      ∙ rw (read_as, settle) (ground arith)

  -- Of the messages that one `recv` returns together only the first is looked at: when its
  -- numbers fit their fields and it is no order and no market data, the server counts one
  -- message, and the later bytes show only in the buffer.
  pub coalesced_dropped :
      (m : Message) (rest : List ℕ)
      → IsEncodable m
      → is_order_type m.message_type ≡ false
      → same_type m.message_type MessageType.market_data ≡ false
      → receive_chunk F (encode_message m ++ rest) latency_ns s
        ≡ some (
            update_stats F latency_ns
              (record s { recv_buffer = overwrite s.recv_buffer (encode_message m ++ rest) }))
  unfolding settle log log_all
  coalesced_dropped m rest ok t u =
      receive_chunk-parse F (encode_message m ++ rest) latency_ns s
        (rw (parse-encode_message m rest ok t u) refl)
      ∙ rw (parse-encode_message m rest ok t u, settle) (ground arith)

  -- A message of an order type whose numbers fit their fields, sent as a plain `Message`, which
  -- is what the clients send, is reported as incomplete; no service sees it and it is not
  -- counted.
  pub plain_order_rejected :
      (m : Message)
      → IsEncodable m
      → is_order_type m.message_type ≡ true
      → receive_chunk F (encode_message m) latency_ns s
        ≡ some (
            emit
              (incomplete message_size order_size)
              (record s { recv_buffer = overwrite s.recv_buffer (encode_message m) }))
  unfolding settle log log_all
  plain_order_rejected m ok t =
      receive_chunk-parse F (encode_message m) latency_ns s
        (rw (parse-encode_message_order m ok t) refl)
      ∙ rw (parse-encode_message_order m ok t, settle)
          (rw (length-encode_message m ok.payload_full) refl)
