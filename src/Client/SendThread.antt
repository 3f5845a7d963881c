-- ===== src/Client/SendThread.antt =====
-- src/hft_tcp_client.cpp: the outer loop of `send_thread_func`.
use hft.Base.{◌≡◌, refl, ◌∙◌, inl, inr, true, false, List, [], ◌∷◌, some, arith, none, Option-cases}
use hft.Message.Types.{Message}
use hft.Client.State.{Client, is_connected}
use hft.Client.Send.{SendAnswer, drain_queue}
use hft.Client.Connection.{Inv}
use hft.Client.Queue.{all_sent, sent_log, count_many, drain_queue_lem}

-- A turn ends the thread, leaves it waiting for a message or for `stop`, or is followed by another.
pub data Turned (D : Type 0) : Type 0 where
  ended waits turned : Client D → Turned D

module _ {D : Type 0} where
  -- One turn: the wait for the condition variable, `running_` again, and the inner loop.
  unfoldable pub send_turn : List SendAnswer → Client D → Turned D
  unfolding drain_queue
  send_turn answers c = elim c.running [
    | false ↦ ended c
    | true ↦ elim c.send_queue [ [] ↦ waits c | _ ∷ _ ↦ turned (drain_queue answers c) ]
  ]

  -- As many turns as there are lists of answers, unless the thread waits or ends before.
  unfoldable pub send_thread : List (List SendAnswer) → Client D → Turned D
  unfolding send_turn
  send_thread [] c = turned c
  send_thread (answers ∷ turns) c = elim (send_turn answers c) [
    | ended d ↦ ended d
    | waits d ↦ waits d
    | turned d ↦ send_thread turns d
  ]

  send_turn-off :
      (answers : List SendAnswer) (m : Message) (q : List Message) (c : Client D)
      → c.running ≡ true
      → c.send_queue ≡ m ∷ q
      → is_connected c ≡ false
      → send_turn answers c ≡ turned c
  unfolding send_turn drain_queue
  send_turn-off [] m q c run front off = ground (arith, run, front)
  send_turn-off (a ∷ answers) m q c run front off = ground (arith, run, front, off)

  send_thread-off :
      (turns : List (List SendAnswer)) (m : Message) (q : List Message) (c : Client D)
      → c.running ≡ true
      → c.send_queue ≡ m ∷ q
      → is_connected c ≡ false
      → send_thread turns c ≡ turned c
  unfolding send_thread
  send_thread-off [] m q c run front off = refl
  send_thread-off (answers ∷ turns) m q c run front off =
      ground (
        arith,
        send_turn-off answers m q c run front off,
        send_thread-off turns m q c run front off,
      )

  -- The send thread is to run and finds messages in the queue of a client that keeps the invariant
  -- `Inv`, so it has a socket just when it is connected. With a socket, and with every `send` taking
  -- its whole message, the thread empties the queue in order and waits in its next turn. Without
  -- one, as after a lost connection, it takes turn after turn, however many, without waiting or
  -- changing anything.
  pub send_thread_lem :
      (m : Message) (q : List Message) (c : Client D) (answers : List SendAnswer)
      (turns : List (List SendAnswer))
      → c.running ≡ true
      → Inv c
      → c.send_queue ≡ m ∷ q
      → send_thread (all_sent (m ∷ q) ∷ answers ∷ turns) c ≡ elim c.socket_fd [
        | none ↦ turned c
        | some fd ↦ waits (record c {
          send_queue = [];
          stats = count_many (m ∷ q) c.stats;
          effects = sent_log fd (m ∷ q) c.effects;
        })
      ]
  unfolding send_thread send_turn
  send_thread_lem m q c answers turns run v front = elim (Option-cases c.socket_fd) [
    | inl lost ↦
        let off : is_connected c ≡ false = ground (arith, lost, v.socket_iff) in
        send_thread-off (all_sent (m ∷ q) ∷ answers ∷ turns) m q c run front off
        ∙ ground (arith, lost)
    | inr (fd, sock) ↦
        let on : is_connected c ≡ true = ground (arith, sock, v.socket_iff) in
        ground (arith, sock, run, front, drain_queue_lem (m ∷ q) fd c on sock front)
  ]
