-- ===== src/Client/SameQueue.antt =====
-- src/hft_tcp_client.cpp: what connecting, disconnecting and sending leave of the queue and of what has
-- been sent.
use hft.Base.{
  ℕ, ◌≡◌, refl, ap, ◌∙◌, Bool, List, [], ◌∷◌, ◌++◌, arith, append-nil, Option, none, some, take,
  length, ◌==◌, false, if◌then◌else◌, if_cases,
}
use hft.Message.Types.{Message}
use hft.Message.Codec.{encode_message}
use hft.Client.State.{
  Client, Effect, sent, is_connected, is_disconnected_state, disconnected, reconnecting, emit,
  slept,
}
use hft.Client.Connect.{
  ConnectAnswers, connect, disconnect, close_epoll, close_socket, attempt_reconnection,
  handle_disconnection,
}
use hft.Client.Connection.{counted_once}
use hft.Client.Send.{SendAnswer, send_data, send_front, count_error}

-- What `send` took in each of its calls, in order.
unfoldable pub chunks : List Effect → List (List ℕ)
chunks [] = []
chunks (sent fd bs ∷ es) = chunks es ++ bs ∷ []
chunks (_ ∷ es) = chunks es

-- What goes out of a message of which `send` takes a number of bytes, and whether that is all.
abbrev pub part : Message → Option ℕ → List (List ℕ)
part m none = []
part m (some n) = take n (encode_message m) ∷ []

abbrev pub is_whole : Message → Option ℕ → Bool
is_whole m none = false
is_whole m (some n) = n == length (encode_message m)

take_all : (bs : List ℕ) → take (length bs) bs ≡ bs
take_all [] = refl
take_all (b ∷ bs) = ap (◌∷◌ b) (take_all bs)

module _ {D : Type 0} where
  -- What `connect`, `close_socket` and the reconnections leave.
  pub record SameQueue (c d : Client D) : Type 0 where
    pub queue : d.send_queue ≡ c.send_queue
    pub wire : chunks d.effects ≡ chunks c.effects

  SameQueue-trans : {c d e : Client D} → SameQueue c d → SameQueue d e → SameQueue c e
  SameQueue-trans p q = record { queue = q.queue ∙ p.queue; wire = q.wire ∙ p.wire }

  pub connect-SameQueue : (a : ConnectAnswers) (c : Client D) → SameQueue c (connect a c).0
  unfolding connect chunks
  connect-SameQueue a c = record { queue = ground arith; wire = ground arith }

  close_socket-SameQueue : (c : Client D) → SameQueue c (close_socket c)
  unfolding close_socket chunks
  close_socket-SameQueue c = record { queue = ground arith; wire = ground arith }

  attempt-SameQueue :
      (answers : List ConnectAnswers) (c : Client D)
      → SameQueue c (attempt_reconnection answers c).0
  unfolding attempt_reconnection chunks
  attempt-SameQueue [] c = record { queue = refl; wire = refl }
  attempt-SameQueue (a ∷ answers) c =
      let counted = counted_once c in
      let tried = (connect a counted).0 in
      let p = connect-SameQueue a counted in
      let q : SameQueue c tried = record { queue = p.queue; wire = p.wire } in
      let waited = emit (slept c.reconnect_interval_ms) tried in
      let r : SameQueue c waited = record { queue = q.queue; wire = q.wire } in
      if_cases (λ (x : Client D × Bool). SameQueue c x.0) (connect a counted).1 (λ _. q)
        (λ _.
          if_cases (λ (x : Client D × Bool). SameQueue c x.0) c.auto_reconnect
            (λ _. SameQueue-trans r (attempt-SameQueue answers waited)) (λ _. r))

  pub handle_disconnection-SameQueue :
      (answers : List ConnectAnswers) (c : Client D)
      → SameQueue c (handle_disconnection answers c).0
  unfolding handle_disconnection chunks
  handle_disconnection-SameQueue answers c =
      let dropped = record c { connection_state = disconnected } in
      let lost = close_socket dropped in
      let p = close_socket-SameQueue dropped in
      let q : SameQueue c lost = record { queue = p.queue; wire = p.wire } in
      let again = record lost { connection_state = reconnecting } in
      let r : SameQueue c again = record { queue = q.queue; wire = q.wire } in
      if_cases (λ (x : Client D × Bool). SameQueue c x.0) (is_disconnected_state c.connection_state)
        (λ _. record { queue = refl; wire = refl })
        (λ _.
          if_cases (λ (x : Client D × Bool). SameQueue c x.0) c.auto_reconnect
            (λ _. SameQueue-trans r (attempt-SameQueue answers again)) (λ _. q))

  -- The number of bytes that `send` takes, if it is called and does not fail.
  unfoldable pub bytes_taken : SendAnswer → Client D → Option ℕ
  bytes_taken a c = elim c.socket_fd [
    | none ↦ none
    | some fd ↦ if is_connected c then a.bytes_sent else none
  ]

  -- Whether `send_data` reports the message as sent.
  abbrev pub goes_out : Message → SendAnswer → Client D → Bool
  goes_out m a c = (send_data (encode_message m) a.bytes_sent c).1

  send_data-chunks :
      (m : Message) (a : SendAnswer) (c : Client D)
      → chunks (send_data (encode_message m) a.bytes_sent c).0.effects
        ≡ chunks c.effects ++ part m (bytes_taken a c)
  unfolding send_data chunks bytes_taken
  send_data-chunks m a c =
      ground (arith, append-nil (chunks c.effects), take_all (encode_message m))

  -- `send_data` reports a message as sent just when `send` took all its bytes.
  goes_out_lem :
      (m : Message) (a : SendAnswer) (c : Client D) → goes_out m a c ≡ is_whole m (bytes_taken a c)
  unfolding send_data bytes_taken
  goes_out_lem m a c = ground arith

  -- What one turn of the send thread makes of the queue and of the wire.
  pub record IsSent (m : Message) (a : SendAnswer) (c d : Client D) : Type 0 where
    pub queue : d.send_queue ≡ c.send_queue
    pub wire : chunks d.effects ≡ chunks c.effects ++ part m (bytes_taken a c)
    pub reported : goes_out m a c ≡ is_whole m (bytes_taken a c)

  send_data_queue :
      (m : Message) (a : SendAnswer) (c : Client D)
      → (send_data (encode_message m) a.bytes_sent c).0.send_queue ≡ c.send_queue
  unfolding send_data
  send_data_queue m a c = ground arith

  pub send_front-IsSent :
      (m : Message) (a : SendAnswer) (c : Client D) → IsSent m a c (send_front m a c)
  unfolding send_front
  send_front-IsSent m a c =
      let tried = (send_data (encode_message m) a.bytes_sent c).0 in
      let failed = record tried { stats = count_error tried.stats } in
      let k = handle_disconnection-SameQueue a.reconnects failed in
      if_cases (IsSent m a c) (goes_out m a c)
        (λ _. record {
          queue = send_data_queue m a c;
          wire = send_data-chunks m a c;
          reported = goes_out_lem m a c;
        })
        (λ _. record {
          queue = k.queue ∙ send_data_queue m a c;
          wire = k.wire ∙ send_data-chunks m a c;
          reported = goes_out_lem m a c;
        })

  pub disconnect-SameQueue : (c : Client D) → SameQueue c (disconnect c)
  unfolding disconnect close_epoll close_socket chunks
  disconnect-SameQueue c = record { queue = ground arith; wire = ground arith }
