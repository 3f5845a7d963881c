-- ===== src/Server/Receive.antt =====
-- src/hft_server.cpp: `handle_client_events` and the three overloads of `process_client_message`.
-- What `recv` answers, and how long a message takes, are arguments. `none` is a read out of bounds.
use hft.Base.{
  ◌>>=◌, ℕ, take, Bool, ◌||◌, List, [], ◌∷◌, ◌++◌, Option, none, some, length, leb, overwrite,
  if◌then◌else◌,
}
use hft.Message.Types.{Message, MessageType}
use hft.Message.Layout.{message_size, order_size, market_data_size}
use hft.Message.Symbol.{symbol_text}
use hft.Message.Codec.{encode_message, decode_message, decode_order, decode_market_data}
use hft.Server.State.{
  Server, Connection, Floats, Effect, order_printed, market_data_printed, incomplete, closed,
  unwatched, sent, emit, increment, same_type, find, erase,
}
use hft.Server.Services.{process_message}

-- The answers of `recv` to the calls of one loop, each with the bytes that it put in the buffer and
-- the nanoseconds that the message in them took. `failed` is an error other than EAGAIN.
pub data Recvs : Type 0 where
  chunk : List ℕ → ℕ → Recvs → Recvs
  would_block failed disconnected : Recvs

abbrev pub is_order_type : MessageType → Bool
is_order_type t =
    same_type t MessageType.order_new
    || same_type t MessageType.order_cancel
    || same_type t MessageType.order_replace

module _ {D : Type 0} where
  unfoldable pub close_connection : Connection → Server D → Server D
  close_connection conn s = record s {
    connections = elim conn.fd [ none ↦ s.connections | some fd ↦ erase fd s.connections ];
    effects = closed conn.fd ∷ unwatched conn.fd ∷ s.effects;
  }

  -- What `send` returns is `answer`; a failure is only reported.
  unfoldable pub send_response : Connection → Message → Option ℕ → Server D → Server D
  send_response conn response answer s =
      let filled = record s { send_buffer = overwrite s.send_buffer (encode_message response) } in
      elim answer [
        | none ↦ filled
        | some n ↦ emit (sent conn.fd (take n (take message_size filled.send_buffer))) filled
      ]

  -- The service that is registered for the type, if any, gets the message.
  unfoldable pub find_and_process : Message → List ℕ → Server D → Option (List Effect)
  unfolding process_message
  find_and_process msg memory s = elim (s.services msg.message_type) [
    | none ↦ some []
    | some service ↦ process_message service msg memory
  ]

  unfoldable pub log_all : List Effect → Server D → Server D
  log_all es s = record s { effects = es ++ s.effects }

module _ {D : Type 0} (F : Floats D) where
  -- The end of each overload: the count and the moving average.
  unfoldable pub update_stats : ℕ → Server D → Server D
  update_stats latency_ns s =
      let current_latency_us = F.divide (F.of_count latency_ns) F.thousand in
      record s {
        stats = record stats {
          total_messages_processed = increment stats.total_messages_processed;
          avg_latency_us =
              F.add (F.multiply F.alpha current_latency_us)
                (F.multiply F.rest_of_alpha stats.avg_latency_us);
        };
      }
    where
      open s use {stats}

  finish : ℕ → Server D → Option (List Effect) → Option (Server D)
  unfolding update_stats log_all
  finish latency_ns s none = none
  finish latency_ns s (some es) = some (update_stats latency_ns (log_all es s))

  -- Each overload casts the buffer to its own structure. The last two print the symbol first.
  unfoldable pub process_base : ℕ → Server D → Option (Server D)
  unfolding finish find_and_process
  process_base latency_ns s = elim (decode_message s.recv_buffer) [
    | none ↦ none
    | some (msg, _) ↦ finish latency_ns s (find_and_process msg s.recv_buffer s)
  ]

  unfoldable pub process_order : ℕ → Server D → Option (Server D)
  unfolding finish find_and_process symbol_text
  process_order latency_ns s = do
    (order, _) ← decode_order s.recv_buffer
    text ← symbol_text s.recv_buffer
    let printed = emit (order_printed text order) s
    finish latency_ns printed (find_and_process order.base s.recv_buffer s)

  unfoldable pub process_market_data : ℕ → Server D → Option (Server D)
  unfolding finish find_and_process symbol_text
  process_market_data latency_ns s = do
    (market_data, _) ← decode_market_data s.recv_buffer
    text ← symbol_text s.recv_buffer
    let printed = emit (market_data_printed text market_data) s
    finish latency_ns printed (find_and_process market_data.base s.recv_buffer s)

  -- Which overload, by the type that the buffer shows and the number of bytes read.
  unfoldable pub dispatch : ℕ → ℕ → Server D → Option (Server D)
  unfolding process_base process_order process_market_data
  dispatch bytes_read latency_ns s = elim (decode_message s.recv_buffer) [
    | none ↦ none
    | some (msg, _) ↦
        if is_order_type msg.message_type
        then (if leb order_size bytes_read
            then process_order latency_ns s
            else some (emit (incomplete bytes_read order_size) s))
        else (if same_type msg.message_type MessageType.market_data
            then (if leb market_data_size bytes_read
                then process_market_data latency_ns s
                else some (emit (incomplete bytes_read market_data_size) s))
            else process_base latency_ns s)
  ]

  -- One turn of the loop, when `recv` returned `bs`.
  unfoldable pub receive_chunk : List ℕ → ℕ → Server D → Option (Server D)
  unfolding dispatch
  receive_chunk bs latency_ns s =
      let received = record s { recv_buffer = overwrite s.recv_buffer bs } in
      if leb message_size (length bs)
      then dispatch (length bs) latency_ns received
      else some (emit (incomplete (length bs) message_size) received)

  unfoldable pub receive_loop : Connection → Recvs → Server D → Option (Server D)
  unfolding receive_chunk close_connection
  receive_loop conn (chunk bs latency_ns more) s = elim (receive_chunk bs latency_ns s) [
    | none ↦ none
    | some s' ↦ receive_loop conn more s'
  ]
  receive_loop conn would_block s = some s
  receive_loop conn failed s = some s
  receive_loop conn disconnected s = some (close_connection conn s)

  unfoldable pub handle_client_events : ℕ → Recvs → Server D → Option (Server D)
  unfolding receive_loop
  handle_client_events client_fd answers s = elim (find client_fd s.connections) [
    | none ↦ some s
    | some conn ↦ receive_loop conn answers s
  ]
