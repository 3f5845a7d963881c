-- ===== src/System/Session.antt =====
-- src/hft_tcp_client_test.cpp with src/hft_tcp_client.cpp and src/hft_server.cpp: heartbeats that are
-- typed at the client test program, on their way to the counters of the server.
use hft.Base.{
  ℕ, ◌+◌, ◌%◌, ◌^◌, ◌<◌, ◌≡◌, refl, sym, ap, ◌∙◌, subst, true, List, [], ◌∷◌, ◌++◌, some, All,
  arith, length, length-replicate, zero,
}
use hft.Message.Types.{Message, new_message}
use hft.Message.Bytes.{type_of_byte, status_of_byte}
use hft.Server.State.{Server, Connection}
use hft.Server.State as ServerState
use hft.Server.Receive.{receive_loop}
use hft.Client.State.{Client, Floats, is_connected}
use hft.Client.Messages.{heartbeat_request, new_request}
use hft.Client.Send.{send_message, send_heartbeat, drain_queue}
use hft.Client.Queue.{all_sent, send_all}
use hft.Programs.Commands.{heartbeat, parse_command}
use hft.Programs.ClientTest.{Line, happen_all, run_commands}
use hft.System.Segments.{IsPlain, Group, messages, segments, all_bytes, wire, queued-segments}

module _ {E : Type 0} (G : Floats E) where
  -- A line that asks for a heartbeat, with no event before it; what is drawn for it fits its type.
  pub record IsHeartbeatLine (x : Line G) : Type 0 where
    pub asks : parse_command x.text ≡ heartbeat
    pub alone : x.turn.events ≡ []
    pub id_fits : x.turn.draws.request_id < 2 ^ 64
    pub now_fits : x.turn.draws.request_now < 2 ^ 64

  abbrev pub heartbeats : ℕ → List (Line G) → List Message
  heartbeats client_id [] = []
  heartbeats client_id (x ∷ xs) =
      heartbeat_request x.turn.draws.request_id x.turn.draws.request_now client_id
      ∷ heartbeats client_id xs

  heartbeat_request-IsPlain :
      (id now client_id : ℕ)
      → id < 2 ^ 64
      → now < 2 ^ 64
      → client_id < 2 ^ 32
      → IsPlain (heartbeat_request id now client_id)
  unfolding heartbeat_request new_request new_message type_of_byte status_of_byte
  heartbeat_request-IsPlain id now client_id id_fits now_fits client_fits = record {
    encodable = record {
      message_id_fits = id_fits;
      timestamp_fits = now_fits;
      sequence_number_fits = omega arith;
      message_type_fits = omega arith;
      message_type_storable = refl;
      status_fits = omega arith;
      status_storable = refl;
      source_id_fits = omega arith;
      destination_id_fits = omega arith;
      payload_size_fits = omega arith;
      payload_full = length-replicate 1024 zero;
    };
    no_order = refl;
    no_market_data = refl;
  }

  heartbeats-IsPlain :
      (client_id : ℕ) (xs : List (Line G))
      → client_id < 2 ^ 32
      → All IsHeartbeatLine xs
      → All IsPlain (heartbeats client_id xs)
  heartbeats-IsPlain client_id [] fits ok = tt
  heartbeats-IsPlain client_id (x ∷ xs) fits (k, ok) = (
    heartbeat_request-IsPlain _ _ client_id k.id_fits k.now_fits fits,
    heartbeats-IsPlain client_id xs fits ok,
  )

  same_client_id : (m : Message) (c : Client E) → (send_message m c).0.client_id ≡ c.client_id
  unfolding send_message
  same_client_id m c = ground arith

  run_heartbeat :
      (x : Line G) (xs : List (Line G)) (c : Client E)
      → IsHeartbeatLine x
      → run_commands G (x ∷ xs) c
        ≡ run_commands G xs
            (send_message
              (heartbeat_request x.turn.draws.request_id x.turn.draws.request_now c.client_id)
              c).0
  unfolding run_commands happen_all send_heartbeat
  run_heartbeat x xs c k = ground (arith, k.asks, went)
    where
      went : happen_all G x.turn.events c ≡ some c
      went = ap (λ es. happen_all G es c) k.alone

  -- The commands queue the heartbeats in order.
  run_commands-heartbeats :
      (xs : List (Line G)) (c : Client E)
      → All IsHeartbeatLine xs
      → run_commands G xs c ≡ some (send_all (heartbeats c.client_id xs) c)
  unfolding run_commands send_all
  run_commands-heartbeats [] c ok = refl
  run_commands-heartbeats (x ∷ xs) c (k, ok) =
      let m = heartbeat_request x.turn.draws.request_id x.turn.draws.request_now c.client_id in
      let after = (send_message m c).0 in
      run_heartbeat x xs c k
      ∙ run_commands-heartbeats xs after ok
      ∙ ap (λ (id : ℕ). some (send_all (heartbeats id xs) after)) (same_client_id m c)

  All-behind : (P : Message → Type 0) (xs ys : List Message) → All P (xs ++ ys) → All P ys
  All-behind P [] ys ok = ok
  All-behind P (x ∷ xs) ys (k, ok) = All-behind P xs ys ok

  firsts-IsPlain :
      (gs : List Group) → All IsPlain (messages gs) → All (λ (g : Group). IsPlain g.0) gs
  firsts-IsPlain [] ok = tt
  firsts-IsPlain ((m, ms) ∷ gs) (k, ok) =
      (k, firsts-IsPlain gs (All-behind IsPlain ms (messages gs) ok))

module _ {D E : Type 0} (G : Floats E) (F : ServerState.Floats D) where
  -- The client test program runs lines that ask for heartbeats, with no event in between, at a
  -- connected client whose queue is empty; ids and times are below 2^64 and the client id below
  -- 2^32. The commands are taken without a fault, and when each `send` takes its whole message,
  -- the heartbeats go on the wire in the order of the lines. A server with a counter below 2^64
  -- that gets them in groups of whole messages, one group with each `recv`, counts one message
  -- for each group, modulo 2^64, without a fault and without an effect.
  pub typed_heartbeats :
      (gs : List Group) (xs : List (Line G)) (fd ns : ℕ) (c : Client E) (conn : Connection)
      (s : Server D)
      → All (IsHeartbeatLine G) xs
      → messages gs ≡ heartbeats G c.client_id xs
      → c.client_id < 2 ^ 32
      → is_connected c ≡ true
      → c.socket_fd ≡ some fd
      → c.send_queue ≡ []
      → s.stats.total_messages_processed < 2 ^ 64
      → (d : Client E) × (run_commands G xs c ≡ some d)
        × (wire fd (drain_queue (all_sent (messages gs)) d).effects
            ≡ wire fd c.effects ++ all_bytes gs)
        × ((t : Server D) × (receive_loop F conn (segments ns gs) s ≡ some t)
            × (t.stats.total_messages_processed
                ≡ (s.stats.total_messages_processed + length gs) % 2 ^ 64)
            × (t.effects ≡ s.effects))
  typed_heartbeats gs xs fd ns c conn s ok grouped client_fits on sock empty fits =
      let plain = heartbeats-IsPlain G c.client_id xs client_fits ok in
      let firsts = firsts-IsPlain G gs (subst (All IsPlain) (sym grouped) plain) in
      let (sent, counted) = queued-segments F gs fd ns c conn s firsts on sock empty fits in
      (
        send_all (messages gs) c,
        run_commands-heartbeats G xs c ok
            ∙ ap (λ (ms : List Message). some (send_all ms c)) (sym grouped),
        sent,
        counted,
      )
