-- ===== src/System/Coalesced.antt =====
-- src/hft_server.cpp: orders that the clients send as a plain `Message`, when TCP brings several with
-- one `recv`.
use hft.Base.{
  ℕ, suc, ◌+◌, ◌%◌, ◌^◌, ◌<◌, ◌≤◌, ◌≡◌, refl, sym, ap, ◌∙◌, true, List, [], ◌∷◌, ◌++◌, Option, none,
  some, All, arith, length, append-nil, length-append, overwrite,
}
use hft.Message.Types.{Message, OrderMessage}
use hft.Message.Layout.{message_size, order_size}
use hft.Message.Symbol.{symbol_text}
use hft.Message.Codec.{encode_message, decode_message, decode_order}
use hft.Message.Codec.RoundTrip.{IsEncodable, decode_message-encode_message}
use hft.Message.Codec.Extent.{length-encode_message}
use hft.Server.State.{Server, Connection, Floats, emit, incomplete}
use hft.Server.Receive.{is_order_type, receive_chunk, receive_loop, update_stats, log_all}
use hft.Server.Content.{Content, order_content, read, parse, is_readable, is_counted, settle}
use hft.Server.Refinement.{receive_chunk-parse}
use hft.Server.Delivery.{plain_order_rejected}
use hft.Client.Framing.{encode_all}
use hft.System.Segments.{Group, messages, group_bytes, segments}

-- A message of an order type whose numbers fit their fields.
pub record IsOrder (m : Message) : Type 0 where
  pub encodable : IsEncodable m
  pub of_order_type : is_order_type m.message_type ≡ true

-- The groups of more than one message.
abbrev pub coalesced : List Group → ℕ
coalesced [] = 0
coalesced ((m, []) ∷ gs) = coalesced gs
coalesced ((m, _ ∷ _) ∷ gs) = suc (coalesced gs)

behind : (P : Message → Type 0) (ms ns : List Message) → All P (ms ++ ns) → All P ns
behind P [] ns h = h
behind P (m ∷ ms) ns h = behind P ms ns h.1

same_tests :
    (text : Option (List ℕ)) (o : Option (OrderMessage × List ℕ))
    → is_readable (order_content text o) ≡ true
    → is_counted (order_content text o) ≡ true
same_tests none o h = absurd (cc h)
same_tests (some text) none h = absurd (cc h)
same_tests (some text) (some (o, r)) h = refl

parse-long :
    (bs r : List ℕ) (m : Message)
    → order_size ≤ length bs
    → decode_message bs ≡ some (m, r)
    → is_order_type m.message_type ≡ true
    → parse bs ≡ order_content (symbol_text bs) (decode_order bs)
unfolding parse read
parse-long bs r m long e t = ground (arith, long, e, t)

module _ {D : Type 0} (F : Floats D) where
  settle-counted :
      (bs : List ℕ) (ns : ℕ) (c : Content) (s : Server D)
      → is_counted c ≡ true
      → (settle F bs ns c s).stats.total_messages_processed
        ≡ (s.stats.total_messages_processed + 1) % 2 ^ 64
  unfolding settle update_stats log_all
  settle-counted bs ns c s h = ground (arith, h)

  pair_counted :
      (m m' : Message) (ms : List Message) (ns : ℕ) (s : Server D)
      → IsOrder m
      → IsOrder m'
      → is_readable (parse (group_bytes (m, m' ∷ ms))) ≡ true
      → (t : Server D) × (receive_chunk F (group_bytes (m, m' ∷ ms)) ns s ≡ some t)
        × (t.stats.total_messages_processed ≡ (s.stats.total_messages_processed + 1) % 2 ^ 64)
  pair_counted m m' ms ns s k k' h =
      let rest = encode_message m' ++ encode_all ms in
      let bs = encode_message m ++ rest in
      let received = record s { recv_buffer = overwrite s.recv_buffer bs } in
      let long : order_size ≤ length bs = omega (
        arith,
        length-append (encode_message m) rest,
        length-append (encode_message m') (encode_all ms),
        length-encode_message m k.encodable.payload_full,
        length-encode_message m' k'.encodable.payload_full,
      ) in
      let as_order =
        parse-long bs rest m long (decode_message-encode_message m rest k.encodable)
          k.of_order_type in
      let counted : is_counted (parse bs) ≡ true =
        ap is_counted as_order
        ∙ same_tests (symbol_text bs) (decode_order bs) (sym (ap is_readable as_order) ∙ h) in
      (
        settle F bs ns (parse bs) received,
        receive_chunk-parse F bs ns s h,
        settle-counted bs ns (parse bs) received counted,
      )

  single_rejected :
      (m : Message) (ns : ℕ) (s : Server D)
      → IsOrder m
      → (t : Server D) × (receive_chunk F (group_bytes (m, [])) ns s ≡ some t)
        × (t.stats.total_messages_processed ≡ s.stats.total_messages_processed)
  single_rejected m ns s k = (
    emit (incomplete message_size order_size)
        (record s { recv_buffer = overwrite s.recv_buffer (encode_message m) }),
    ap (λ (bs : List ℕ). receive_chunk F bs ns s) (append-nil (encode_message m))
        ∙ plain_order_rejected F ns s m k.encodable k.of_order_type,
    refl,
  )

  -- One message is counted for each group of more than one.
  pub receive_loop-coalesced :
      (conn : Connection) (ns : ℕ) (gs : List Group) (s : Server D)
      → All IsOrder (messages gs)
      → All (λ (g : Group). is_readable (parse (group_bytes g)) ≡ true) gs
      → s.stats.total_messages_processed < 2 ^ 64
      → (t : Server D) × (receive_loop F conn (segments ns gs) s ≡ some t)
        × (t.stats.total_messages_processed
            ≡ (s.stats.total_messages_processed + coalesced gs) % 2 ^ 64)
  unfolding receive_loop
  receive_loop-coalesced conn ns [] s ok readable fits = (s, refl, omega arith)
  receive_loop-coalesced conn ns ((m, []) ∷ gs) s (k, ok) (h, readable) fits =
      let (u, one, same) = single_rejected m ns s k in
      let (t, run, count) = receive_loop-coalesced conn ns gs u ok readable (omega (arith, same)) in
      (t, ground (arith, one, run), omega (arith, count, same))
  receive_loop-coalesced conn ns ((m, m' ∷ ms) ∷ gs) s (k, (k', ok)) (h, readable) fits =
      let (u, one, more) = pair_counted m m' ms ns s k k' h in
      let (t, run, count) =
        receive_loop-coalesced conn ns gs u (behind IsOrder ms (messages gs) ok) readable
          (omega (arith, more)) in
      (t, ground (arith, one, run), omega (arith, count, more))
