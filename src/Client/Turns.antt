-- ===== src/Client/Turns.antt =====
-- The descriptors over the turns of the send and the receive thread.
use hft.Base.{
  ℕ, suc, ◌≡◌, sym, subst, Bool, true, false, inl, inr, List, [], ◌∷◌, Option, some, arith, length,
  Bool-cases, if_true, if_cases,
}
use hft.Message.Types.{Message}
use hft.Client.State.{Client, Floats, is_connected}
use hft.Client.State.{is_disconnected_state}
use hft.Client.Connect.{ConnectAnswers, handle_disconnection}
use hft.Client.Send.{SendAnswer, send_data, send_front, drain_queue, count_error}
use hft.Message.Codec.{encode_message}
use hft.Client.Connection.{handle_disconnection-IsRetried}
use hft.Client.Keeps.{Keeps, Keeps-Inv, process_loop-Keeps}
use hft.Client.Receive.{
  RecvAnswer, receive_turn, received, nothing, server_closed, failed, count_bytes,
  process_received_data,
}
use hft.Client.Connection.{Inv, open_fds}

module _ {D : Type 0} (F : Floats D) where
  handle_disconnection-Inv :
      (answers : List ConnectAnswers) (c : Client D)
      → Inv c
      → Inv (handle_disconnection answers c).0
  unfolding handle_disconnection
  handle_disconnection-Inv answers c v =
      elim (Bool-cases (is_disconnected_state c.connection_state)) [
        | inl gone ↦
            subst (λ (r : Client D × Bool). Inv r.0) (sym (if_true {A = Client D × Bool} _ _ gone))
              v
        | inr there ↦ (handle_disconnection-IsRetried answers c v there).keeps_inv
      ]

  send_data-Keeps :
      (bytes : List ℕ) (answer : Option ℕ) (c : Client D) → Keeps c (send_data bytes answer c).0
  unfolding send_data open_fds
  send_data-Keeps bytes answer c = record {
    socket_fd = ground arith;
    epoll_fd = ground arith;
    state = ground arith;
    open_now = ground arith;
  }

  send_front-Inv : (m : Message) (a : SendAnswer) (c : Client D) → Inv c → Inv (send_front m a c)
  unfolding send_front
  send_front-Inv m a c v =
      let tried = (send_data (encode_message m) a.bytes_sent c).0 in
      let w = Keeps-Inv c tried (send_data-Keeps (encode_message m) a.bytes_sent c) v in
      if_cases Inv (send_data (encode_message m) a.bytes_sent c).1
        (λ _. record { owns = w.owns; socket_iff = w.socket_iff })
        (λ _.
          handle_disconnection-Inv a.reconnects (record tried { stats = count_error tried.stats })
            (record { owns = w.owns; socket_iff = w.socket_iff }))

  pub drain_queue-Inv :
      (answers : List SendAnswer) (c : Client D) → Inv c → Inv (drain_queue answers c)
  unfolding drain_queue
  drain_queue-Inv [] c v = v
  drain_queue-Inv (a ∷ answers) c v =
      by_queue (λ d w. drain_queue-Inv answers d w) c.send_queue (is_connected c)
    where
      by_queue :
          ((d : Client D) → Inv d → Inv (drain_queue answers d))
          → (q : List Message) (b : Bool)
          → Inv (elim q [
            | [] ↦ c
            | msg ∷ rest ↦ elim b [
              | true ↦ drain_queue answers (send_front msg a (record c { send_queue = rest }))
              | false ↦ c
            ]
          ])
      by_queue again [] b = v
      by_queue again (msg ∷ rest) false = v
      by_queue again (msg ∷ rest) true = again (send_front msg a (record c { send_queue = rest })) (
          send_front-Inv msg a (record c { send_queue = rest })
            (record { owns = v.owns; socket_iff = v.socket_iff }))

  counted-Inv : (n now : ℕ) (c : Client D) → Inv c → Inv (count_bytes F n now c)
  unfolding count_bytes
  counted-Inv n now c v = record { owns = v.owns; socket_iff = v.socket_iff }

  connected_turn :
      (answer : RecvAnswer F) (c d : Client D)
      → Inv c
      → is_connected c ≡ true
      → receive_turn F answer c ≡ some d
      → Inv d
  unfolding receive_turn process_received_data
  connected_turn (received bytes now clock) c d v on e =
      Keeps-Inv (count_bytes F (length bytes) now c) d
        (process_loop-Keeps F (suc (length bytes)) clock bytes 0
          (count_bytes F (length bytes) now c) d (ground (arith, e, on)))
        (counted-Inv (length bytes) now c v)
  connected_turn nothing c d v on e = subst Inv (ground (arith, e, on)) v
  connected_turn (server_closed reconnects) c d v on e =
      subst Inv (ground (arith, e, on)) (handle_disconnection-Inv reconnects c v)
  connected_turn (failed reconnects) c d v on e = subst Inv (ground (arith, e, on)) (
      handle_disconnection-Inv reconnects (record c { stats = count_error c.stats })
        (record { owns = v.owns; socket_iff = v.socket_iff }))

  pub receive_turn-Inv :
      (answer : RecvAnswer F) (c d : Client D) → Inv c → receive_turn F answer c ≡ some d → Inv d
  unfolding receive_turn
  receive_turn-Inv answer c d v e = elim (Bool-cases (is_connected c)) [
    | inl on ↦ connected_turn answer c d v on e
    | inr off ↦ subst Inv (ground (arith, e, off)) v
  ]
