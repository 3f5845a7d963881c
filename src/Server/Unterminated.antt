-- ===== src/Server/Unterminated.antt =====
-- src/hft_server.cpp: an order with no 0 from its symbol on, whose print reads on in the buffer.
use hft.Base.{
  ℕ, ◌≤◌, ◌≡◌, ◌∙◌, sym, subst, ap, true, List, [], ◌++◌, Option, none, some, arith, length, drop,
  append-nil, overwrite,
}
use hft.Message.Types.{Message, OrderMessage}
use hft.Message.Layout.{message_size, order_size}
use hft.Message.Symbol.{c_string, symbol_offset, symbol_text, symbol_text-runs_on}
use hft.Message.Codec.{decode_message, decode_order}
use hft.Message.Codec.Extent.{decode_message-Reads}
use hft.Message.Codec.Prefix.{Reads-prefix, decode_order-base}
use hft.Server.State.{Server, Floats}
use hft.Server.Receive.{is_order_type, receive_chunk}
use hft.Server.Content.{Content, order, order_content, read, outcome, settle}
use hft.Server.Refinement.{receive_chunk-read}

decode_message-of_order :
    (bs r : List ℕ) (o : OrderMessage)
    → order_size ≤ length bs
    → decode_order bs ≡ some (o, r)
    → (q : List ℕ) × (decode_message bs ≡ some (o.base, q))
decode_message-of_order bs r o long e =
    let (m, f) =
      Reads-prefix message_size decode_message decode_message-Reads bs (omega (arith, long)) in
    let alone =
      subst (λ (l : List ℕ). decode_message l ≡ some (m, drop message_size bs ++ []))
        (append-nil bs) (f []) in
    let same_base = decode_order-base bs m o _ r alone e in
    (
      drop message_size bs ++ [],
      alone ∙ ap (λ (x : Message). some (x, drop message_size bs ++ [])) (sym same_base),
    )

read-order :
    (bs r : List ℕ) (o : OrderMessage) (text : Option (List ℕ))
    → order_size ≤ length bs
    → decode_order bs ≡ some (o, r)
    → is_order_type o.message_type ≡ true
    → read bs text ≡ order_content text (some (o, r))
unfolding read
read-order bs r o text long e t =
    let (q, f) = decode_message-of_order bs r o long e in ground (arith, f, e, t, long)

module _ {D : Type 0} (F : Floats D) (latency_ns : ℕ) where
  outcome-text :
      (bs r : List ℕ) (o : OrderMessage) (front : List ℕ) (behind : Option (List ℕ)) (s : Server D)
      → outcome F bs latency_ns
          (order_content
            (elim behind [ none ↦ none | some stale ↦ some (front ++ stale) ])
            (some (o, r)))
          s
        ≡ (elim behind [
          | none ↦ none
          | some stale ↦ some (settle F bs latency_ns (order (front ++ stale) o) s)
        ])
  unfolding outcome
  outcome-text bs r o front behind s = ground arith

  -- An order type arrives in at least `sizeof(OrderMessage)` bytes, none of which is 0 from the
  -- symbol on. What is printed as its symbol goes on with the bytes of earlier messages that the
  -- buffer holds behind it, up to the first 0 there; apart from that text the order is handled as
  -- any other. When there is no 0 up to the end of the buffer, the print reads past it.
  pub unterminated_symbol :
      (bs r : List ℕ) (o : OrderMessage) (s : Server D)
      → order_size ≤ length bs
      → decode_order bs ≡ some (o, r)
      → is_order_type o.message_type ≡ true
      → symbol_text bs ≡ none
      → receive_chunk F bs latency_ns s ≡ (elim (c_string (drop (length bs) s.recv_buffer)) [
        | none ↦ none
        | some stale ↦ some (
            settle F bs latency_ns
              (order (drop symbol_offset bs ++ stale) o)
              (record s { recv_buffer = overwrite s.recv_buffer bs }))
      ])
  unterminated_symbol bs r o s long e t runs_on =
      let behind = drop (length bs) s.recv_buffer in
      let received = record s { recv_buffer = overwrite s.recv_buffer bs } in
      receive_chunk-read F bs latency_ns s
      ∙ ap (λ (c : Content). outcome F bs latency_ns c received)
          (ap (read bs) (symbol_text-runs_on bs behind (omega (arith, long)) runs_on)
            ∙ read-order bs r o _ long e t)
      ∙ outcome-text bs r o (drop symbol_offset bs) (c_string behind) received
