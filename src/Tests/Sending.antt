-- ===== src/Tests/Sending.antt =====
-- The queue of the client and its send thread, at sample messages.
use hft.Base.{List, ℕ, ◌≡◌, refl, ap, true, some, none, arith, [], ◌∷◌}
use hft.Message.Codec.{encode_message}
use hft.Client.State.{Client, new_client, reconnecting, closed, is_connected, sent}
use hft.Client.Send.{SendAnswer, count_sent, send_message, send_front}
use hft.Client.Connection.{Inv, open_fds}
use hft.Client.Queue.{send_front_lem, all_sent, sends_all, sent_log, count_many}
use hft.Client.SendThread.{waits, turned, send_thread, send_thread_lem}
use hft.Client.Interleaving.{
  Sending, Try, attempt, Run, here, queues, pops, sends, IsFifo, run-IsFifo,
}
use hft.Tests.Samples.{online, heartbeat, later}

-- A client with two messages in its queue, whose threads run.
abbrev loaded : Client ℕ
loaded = record online { running = true; send_queue = heartbeat ∷ later ∷ [] }

loaded-Inv : Inv loaded
unfolding new_client open_fds
loaded-Inv = record { owns = λ x. ground arith; socket_iff = refl }

-- The same client after it has lost its connection.
abbrev lost : Client ℕ
lost = record loaded {
  connection_state = reconnecting;
  socket_fd = none;
  effects = closed 3 ∷ loaded.effects;
}

lost-Inv : Inv lost
unfolding new_client open_fds
lost-Inv = record { owns = λ x. ground arith; socket_iff = refl }

abbrev Turns : Client ℕ → Type 0
Turns c = send_thread (all_sent (heartbeat ∷ later ∷ []) ∷ [] ∷ [] ∷ []) c ≡ elim c.socket_fd [
  | none ↦ turned c
  | some fd ↦ waits (record c {
    send_queue = [];
    stats = count_many (heartbeat ∷ later ∷ []) c.stats;
    effects = sent_log fd (heartbeat ∷ later ∷ []) c.effects;
  })
]

send_thread_example : Turns loaded × Turns lost
unfolding new_client
send_thread_example = (
  send_thread_lem heartbeat (later ∷ []) loaded [] ([] ∷ []) refl loaded-Inv refl,
  send_thread_lem heartbeat (later ∷ []) lost [] ([] ∷ []) refl lost-Inv refl,
)

abbrev resting : Sending ℕ
resting = record { client = online; in_flight = [] }

abbrev holding : Sending ℕ
unfolding new_client send_message
holding = record { client = (send_message heartbeat online).0; in_flight = [] }

-- One message is queued while another is on its way.
abbrev underway : Sending ℕ
underway = record {
  client = (send_message later (record holding.client { send_queue = [] })).0;
  in_flight = heartbeat ∷ [];
}

interleaved : Run resting (heartbeat ∷ later ∷ []) [] underway
unfolding new_client send_message
interleaved = queues (pops (queues here heartbeat refl) heartbeat refl refl refl) later refl

abbrev gone : Sending ℕ
gone = record {
  client = send_front heartbeat (sends_all heartbeat) underway.client;
  in_flight = [];
}

abbrev cut_short : SendAnswer
cut_short = record { bytes_sent = some 100; reconnects = [] }

abbrev cut : Sending ℕ
cut = record {
  client = send_front later cut_short (record gone.client { send_queue = [] });
  in_flight = [];
}

-- The first message goes out whole, the second in part.
abbrev attempts : List Try
attempts =
    attempt heartbeat (sends_all heartbeat) underway.client
    ∷ attempt later cut_short (record gone.client { send_queue = [] })
    ∷ []

-- What the first `send` leaves of the client.
first_send : send_front heartbeat (sends_all heartbeat) underway.client ≡ record underway.client {
  stats = count_sent underway.client.stats;
  effects = sent 3 (encode_message heartbeat) ∷ underway.client.effects;
}
unfolding new_client send_message
first_send = send_front_lem heartbeat 3 underway.client refl refl

both : Run resting (heartbeat ∷ later ∷ []) attempts cut
unfolding new_client send_message
both =
    sends
      (pops (sends interleaved heartbeat (sends_all heartbeat) refl) later
        (ap (λ c. c.send_queue) first_send) (ap is_connected first_send) refl)
      later cut_short refl

run-IsFifo_example : IsFifo resting (heartbeat ∷ later ∷ []) attempts cut
run-IsFifo_example = run-IsFifo resting cut (heartbeat ∷ later ∷ []) attempts both
