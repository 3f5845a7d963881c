-- ===== src/SimpleClient/Life.antt =====
-- The descriptors of the simple client over everything that it does.
use hft.Base.{
  ℕ, suc, ◌≡◌, refl, ◌∙◌, subst, true, false, inl, inr, List, [], ◌∷◌, Option, none, some, arith,
  length, Bool-cases, Option-cases,
}
use hft.Message.Types.{Message}
use hft.Server.Descriptors.{count, held}
use hft.Client.State.{Floats}
use hft.Client.Connect.{ConnectAnswers}
use hft.Client.Connection.{is_set}
use hft.Client.Send.{count_error}
use hft.SimpleClient.State.{
  SimpleClient, emit, slept_us, is_connected, new_simple_client, reset_stats,
}
use hft.SimpleClient.Link.{connect, disconnect}
use hft.SimpleClient.Send.{send_message}
use hft.SimpleClient.Keeps.{
  open_fds, Inv, Keeps, keeps, Keeps-trans, Keeps-Inv, connect-keeps_Inv, disconnect-keeps_Inv,
  send_message-Keeps, process_loop-Keeps,
}
use hft.SimpleClient.Receive.{
  process_loop, count_bytes, RecvAnswer, received, nothing, closed_by_server, failed, Outcome,
  waiting, left, fault, receive_messages,
}

module _ {D : Type 0} (F : Floats D) where
  -- The client after a run of the receive loop, unless that faults.
  abbrev pub state_of : Outcome D → Option (SimpleClient D)
  state_of (waiting c) = some c
  state_of (left c) = some c
  state_of fault = none

  turn_end :
      (answers : List RecvAnswer) (c d : SimpleClient D)
      → is_connected c ≡ false
      → state_of (receive_messages F answers c) ≡ some d
      → c ≡ d
  unfolding receive_messages
  turn_end [] c d off e = ground (arith, off, e)
  turn_end (answer ∷ answers) c d off e = ground (arith, off, e)

  count_bytes-Keeps : (n now : ℕ) (c : SimpleClient D) → Keeps c (count_bytes F n now c)
  unfolding count_bytes
  count_bytes-Keeps n now c = record { socket_fd = refl; state = refl; open_now = refl }

  slept-Keeps : (c : SimpleClient D) → Keeps c (emit (slept_us 100) c)
  unfolding open_fds
  slept-Keeps c = record { socket_fd = refl; state = refl; open_now = refl }

  receive_messages-Keeps :
      (answers : List RecvAnswer) (c d : SimpleClient D)
      → state_of (receive_messages F answers c) ≡ some d
      → Keeps c d
  unfolding receive_messages
  receive_messages-Keeps [] c d e = subst (Keeps c) (ground (arith, e)) keeps
  receive_messages-Keeps (answer ∷ answers) c d e = elim (Bool-cases (is_connected c)) [
    | inr off ↦ subst (Keeps c) (turn_end (answer ∷ answers) c d off e) keeps
    | inl on ↦ turn (λ u k. receive_messages-Keeps answers u d k) answer on e
  ]
    where
      turn :
          ((u : SimpleClient D) → state_of (receive_messages F answers u) ≡ some d → Keeps u d)
          → (a : RecvAnswer) → is_connected c ≡ true
          → state_of (receive_messages F (a ∷ answers) c) ≡ some d
          → Keeps c d
      turn again (received bytes now clock) on k =
          let counted = count_bytes F (length bytes) now c in
          elim (Option-cases (process_loop F (suc (length bytes)) clock bytes 0 counted)) [
            | inl lost ↦ absurd (ground (arith, k, on, lost))
            | inr (u, run) ↦ Keeps-trans (count_bytes-Keeps (length bytes) now c) (
                Keeps-trans (process_loop-Keeps F (suc (length bytes)) clock bytes 0 counted u run)
                  (Keeps-trans (slept-Keeps u)
                    (again (emit (slept_us 100) u) (ground (arith, k, on, run)))))
          ]
      turn again nothing on k =
          Keeps-trans (slept-Keeps c) (again (emit (slept_us 100) c) (ground (arith, k, on)))
      turn again closed_by_server on k = subst (Keeps c) (ground (arith, k, on)) keeps
      turn again failed on k =
          subst (Keeps c) {x = record c { stats = count_error c.stats }} (ground (arith, k, on))
            (record { socket_fd = refl; state = refl; open_now = refl })

  -- What the program and its receive thread do to a client, in any order; a run of the receive
  -- loop may be as short as one answer.
  pub data Step (c : SimpleClient D) : SimpleClient D → Type 0 where
    connects : (a : ConnectAnswers) → Step c (connect a c).0
    disconnects : Step c (disconnect c)
    sends : (m : Message) (answer : Option ℕ) → Step c (send_message m answer c).0
    receives :
        {d : SimpleClient D} (answers : List RecvAnswer)
        → state_of (receive_messages F answers c) ≡ some d
        → Step c d
    resets : (now : ℕ) → Step c (reset_stats F now c)

  pub data Run (c : SimpleClient D) : SimpleClient D → Type 0 where
    here : Run c c
    next : {d e : SimpleClient D} → Run c d → Step d e → Run c e

  reset_stats-Keeps : (now : ℕ) (c : SimpleClient D) → Keeps c (reset_stats F now c)
  unfolding reset_stats
  reset_stats-Keeps now c = record { socket_fd = refl; state = refl; open_now = refl }

  Step-Inv : {c d : SimpleClient D} → Step c d → Inv c → Inv d
  Step-Inv {c = c} (connects a) v = connect-keeps_Inv a c v
  Step-Inv {c = c} disconnects v = disconnect-keeps_Inv c v
  Step-Inv {c = c} (sends m answer) v =
      Keeps-Inv c (send_message m answer c).0 (send_message-Keeps m answer c) v
  Step-Inv {c = c} {d = d} (receives answers e) v =
      Keeps-Inv c d (receive_messages-Keeps answers c d e) v
  Step-Inv {c = c} (resets now) v = Keeps-Inv c (reset_stats F now c) (reset_stats-Keeps now c) v

  Run-Inv : {c d : SimpleClient D} → Run c d → Inv c → Inv d
  Run-Inv here v = v
  Run-Inv (next r s) v = Step-Inv s (Run-Inv r v)

  new-Inv : (id now : ℕ) → Inv (new_simple_client F id now)
  unfolding new_simple_client open_fds
  new-Inv id now = record { owns = λ x. refl; socket_iff = refl }

  disconnect_off : (c : SimpleClient D) → is_connected (disconnect c) ≡ false
  unfolding disconnect
  disconnect_off c = ground arith

  held_nothing : (x : ℕ) (o : Option ℕ) → is_set o ≡ false → held x o ≡ 0
  held_nothing x none e = refl
  held_nothing x (some fd) e = absurd (cc e)

  -- After any sequence of connections, disconnections, messages sent, runs of the receive loop
  -- that do not fault, and resets, from a new simple client on, `disconnect` leaves no
  -- descriptor open.
  pub disconnect_closes_all :
      (id now : ℕ) (c : SimpleClient D)
      → Run (new_simple_client F id now) c
      → (x : ℕ) → count x (open_fds (disconnect c).effects) ≡ 0
  disconnect_closes_all id now c r x =
      let v = disconnect-keeps_Inv c (Run-Inv r (new-Inv id now)) in
      v.owns x ∙ held_nothing x (disconnect c).socket_fd (v.socket_iff ∙ disconnect_off c)
