-- ===== src/System/Segments.antt =====
-- src/hft_tcp_client.cpp with src/hft_server.cpp: the messages of a queue, and what the server makes
-- of the bytes as TCP cuts them.
use hft.Base.{
  ℕ, ◌+◌, ◌%◌, ◌^◌, ◌<◌, ◌≡◌, refl, sym, ap, ◌∙◌, true, false, List, [], ◌∷◌, ◌++◌, some, All,
  arith, length, ◌==◌, append_assoc, append-nil, if◌then◌else◌, overwrite,
}
use hft.Message.Types.{Message, MessageType}
use hft.Message.Codec.{encode_message}
use hft.Message.Codec.RoundTrip.{IsEncodable}
use hft.Server.State.{Server, Connection, same_type}
use hft.Server.State as ServerState
use hft.Server.Receive.{Recvs, chunk, would_block, is_order_type, receive_loop, update_stats}
use hft.Server.Delivery.{coalesced_dropped}
use hft.Client.State.{Client, Effect, sent, is_connected}
use hft.Client.Send.{drain_queue}
use hft.Client.Queue.{all_sent, sent_log, send_all, queue_fifo}
use hft.Client.Framing.{encode_all}

-- A message that is no order and no market data, and whose numbers fit their fields.
pub record IsPlain (m : Message) : Type 0 where
  pub encodable : IsEncodable m
  pub no_order : is_order_type m.message_type ≡ false
  pub no_market_data : same_type m.message_type MessageType.market_data ≡ false

-- A group of messages whose bytes one `recv` returns: the first, and those behind it.
abbrev pub Group : Type 0
Group = Message × List Message

abbrev pub messages : List Group → List Message
messages [] = []
messages ((m, ms) ∷ gs) = m ∷ (ms ++ messages gs)

abbrev pub group_bytes : Group → List ℕ
group_bytes (m, ms) = encode_message m ++ encode_all ms

-- The answers of `recv`, one for each group; the time that each takes is `ns`.
abbrev pub segments : ℕ → List Group → Recvs
segments ns [] = would_block
segments ns (g ∷ gs) = chunk (group_bytes g) ns (segments ns gs)

abbrev pub all_bytes : List Group → List ℕ
all_bytes [] = []
all_bytes (g ∷ gs) = group_bytes g ++ all_bytes gs

-- What was sent on a descriptor, in order.
unfoldable pub wire : ℕ → List Effect → List ℕ
wire fd [] = []
wire fd (sent k bs ∷ es) = (let before = wire fd es in if k == fd then before ++ bs else before)
wire fd (_ ∷ es) = wire fd es

encode_all-append : (ms ns : List Message) → encode_all (ms ++ ns) ≡ encode_all ms ++ encode_all ns
encode_all-append [] ns = refl
encode_all-append (m ∷ ms) ns =
    ap (λ (l : List ℕ). encode_message m ++ l) (encode_all-append ms ns)
    ∙ sym (append_assoc (encode_message m) (encode_all ms) (encode_all ns))

all_bytes-messages : (gs : List Group) → all_bytes gs ≡ encode_all (messages gs)
all_bytes-messages [] = refl
all_bytes-messages ((m, ms) ∷ gs) =
    append_assoc (encode_message m) (encode_all ms) (all_bytes gs)
    ∙ ap (λ (l : List ℕ). encode_message m ++ (encode_all ms ++ l)) (all_bytes-messages gs)
    ∙ ap (λ (l : List ℕ). encode_message m ++ l) (sym (encode_all-append ms (messages gs)))

wire-sent_log :
    (fd : ℕ) (ms : List Message) (es : List Effect)
    → wire fd (sent_log fd ms es) ≡ wire fd es ++ encode_all ms
unfolding wire
wire-sent_log fd [] es = sym (append-nil (wire fd es))
wire-sent_log fd (m ∷ ms) es =
    wire-sent_log fd ms (sent fd (encode_message m) ∷ es)
    ∙ ap (λ (l : List ℕ). l ++ encode_all ms) here
    ∙ append_assoc (wire fd es) (encode_message m) (encode_all ms)
  where
    here : wire fd (sent fd (encode_message m) ∷ es) ≡ wire fd es ++ encode_message m
    here = ground arith

module _ {D : Type 0} (F : ServerState.Floats D) where
  -- One message is counted for each group.
  receive_loop-groups :
      (conn : Connection) (ns : ℕ) (gs : List Group) (s : Server D)
      → All (λ (g : Group). IsPlain g.0) gs
      → s.stats.total_messages_processed < 2 ^ 64
      → (t : Server D) × (receive_loop F conn (segments ns gs) s ≡ some t)
        × (t.stats.total_messages_processed
            ≡ (s.stats.total_messages_processed + length gs) % 2 ^ 64)
        × (t.effects ≡ s.effects)
  unfolding receive_loop update_stats
  receive_loop-groups conn ns [] s ok fits = (s, refl, omega arith, refl)
  receive_loop-groups conn ns ((m, ms) ∷ gs) s (k, ok) fits =
      let one =
        coalesced_dropped F ns s m (encode_all ms) k.encodable k.no_order k.no_market_data in
      let after =
        update_stats F ns
          (record s { recv_buffer = overwrite s.recv_buffer (group_bytes (m, ms)) }) in
      let (t, run, count, kept) = receive_loop-groups conn ns gs after ok (omega arith) in
      (t, ground (arith, one, run), omega (arith, count), kept)

  -- A client that is connected and has an empty queue is given messages. When each `send` takes its
  -- whole message, they go on the wire in order as their bytes. The bytes reach a server with a
  -- counter below 2^64 in groups of whole messages, one group with each `recv`; the first message
  -- of each group is no order and no market data, and its numbers fit. Then the server counts one
  -- message for each group, modulo 2^64, without a fault and without an effect.
  pub queued-segments :
      {E : Type 0} (gs : List Group) (fd ns : ℕ) (c : Client E) (conn : Connection) (s : Server D)
      → All (λ (g : Group). IsPlain g.0) gs
      → is_connected c ≡ true
      → c.socket_fd ≡ some fd
      → c.send_queue ≡ []
      → s.stats.total_messages_processed < 2 ^ 64
      → (wire fd (drain_queue (all_sent (messages gs)) (send_all (messages gs) c)).effects
          ≡ wire fd c.effects ++ all_bytes gs)
        × ((t : Server D) × (receive_loop F conn (segments ns gs) s ≡ some t)
            × (t.stats.total_messages_processed
                ≡ (s.stats.total_messages_processed + length gs) % 2 ^ 64)
            × (t.effects ≡ s.effects))
  queued-segments {E = E} gs fd ns c conn s ok on e empty fits = (
    ap (λ (d : Client E). wire fd d.effects) (queue_fifo (messages gs) fd c on e empty)
        ∙ wire-sent_log fd (messages gs) c.effects
        ∙ ap (λ (l : List ℕ). wire fd c.effects ++ l) (sym (all_bytes-messages gs)),
    receive_loop-groups conn ns gs s ok fits,
  )
