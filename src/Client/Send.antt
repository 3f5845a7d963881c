-- ===== src/Client/Send.antt =====
-- src/hft_tcp_client.cpp: `send_message` and its callers, and the loop of the send thread.
use hft.Base.{
  ℕ, Bool, true, false, List, [], ◌∷◌, ◌++◌, Option, none, some, length, take, ◌==◌, if◌then◌else◌,
}
use hft.Message.Types.{Message, OrderMessage, MarketDataMessage}
use hft.Message.Layout.{message_size}
use hft.Message.Codec.{encode_message}
use hft.Client.State.{Client, ClientStats, sent, emit, add64, is_connected}
use hft.Client.Connect.{ConnectAnswers, handle_disconnection}
use hft.Client.Messages.{order_request, market_data_request, heartbeat_request}

-- `messages_sent++; bytes_sent += sizeof(Message);`
abbrev pub count_sent : {D : Type 0} → ClientStats D → ClientStats D
count_sent s = record s {
  messages_sent = add64 s.messages_sent 1;
  bytes_sent = add64 s.bytes_sent message_size;
}

abbrev pub count_error : {D : Type 0} → ClientStats D → ClientStats D
count_error s = record s { errors = add64 s.errors 1 }

-- The result of `send` for one message, and the answers of the reconnections that a failure starts.
pub record SendAnswer : Type 0 where
  pub bytes_sent : Option ℕ
  pub reconnects : List ConnectAnswers

module _ {D : Type 0} where
  unfoldable pub send_message : Message → Client D → Client D × Bool
  send_message msg c =
      if is_connected c
      then (record c { send_queue = c.send_queue ++ msg ∷ []; stats = count_sent c.stats }, true)
      else (c, false)

  -- `none` is a write past the end of the payload.
  send_request : Option Message → Client D → Option (Client D × Bool)
  unfolding send_message
  send_request none c = none
  send_request (some msg) c = some (send_message msg c)

  unfoldable pub send_order : ℕ → ℕ → OrderMessage → Client D → Option (Client D × Bool)
  unfolding send_request order_request
  send_order id now order c = send_request (order_request id now c.client_id order) c

  unfoldable pub send_market_data : ℕ → ℕ → MarketDataMessage → Client D → Option (Client D × Bool)
  unfolding send_request market_data_request
  send_market_data id now market_data c =
      send_request (market_data_request id now c.client_id market_data) c

  unfoldable pub send_heartbeat : ℕ → ℕ → Client D → Client D × Bool
  unfolding send_message heartbeat_request
  send_heartbeat id now c = send_message (heartbeat_request id now c.client_id) c

  -- `send` returned `answer`; what it took is on the wire, also of a message that it did not take whole.
  unfoldable pub send_data : List ℕ → Option ℕ → Client D → Client D × Bool
  send_data bytes answer c = elim c.socket_fd [
    | none ↦ (c, false)
    | some fd ↦
        if is_connected c
        then (elim answer [
          | none ↦ (c, false)
          | some n ↦
              if n == length bytes
              then (emit (sent fd bytes) c, true)
              else (emit (sent fd (take n bytes)) c, false)
        ])
        else (c, false)
  ]

  -- The body of the inner `while` of the send thread, for the message at the front.
  unfoldable pub send_front : Message → SendAnswer → Client D → Client D
  unfolding send_data
  send_front msg a c =
      let (tried, done) = send_data (encode_message msg) a.bytes_sent c in
      if done
      then record tried { stats = count_sent tried.stats }
      else (handle_disconnection a.reconnects (record tried { stats = count_error tried.stats })).0

  -- The inner `while`, for as many turns as there are answers.
  unfoldable pub drain_queue : List SendAnswer → Client D → Client D
  drain_queue [] c = c
  drain_queue (a ∷ answers) c = elim c.send_queue [
    | [] ↦ c
    | msg ∷ rest ↦ elim (is_connected c) [
      | true ↦ drain_queue answers (send_front msg a (record c { send_queue = rest }))
      | false ↦ c
    ]
  ]
