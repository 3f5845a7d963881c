-- ===== src/Client/Life.antt =====
-- The descriptors of the client over the work of its threads.
use hft.Base.{ℕ, ◌≡◌, refl, Bool, List, Option, none, some, arith}
use hft.Message.Types.{Message}
use hft.Client.State.{Client, Floats}
use hft.Client.Threads.{heartbeat_turn, start, stop, ClientEvent, open_epoll, epoll_turn}
use hft.Client.Polling.{open_epoll-Inv, epoll_turn-Keeps, close_epoll-Inv}
use hft.Client.State.{
  reset_stats, set_message_handler, set_order_handler, set_market_data_handler, set_auto_reconnect,
  set_heartbeat_interval, new_client,
}
use hft.Client.Connect.{ConnectAnswers, connect, disconnect, close_epoll}
use hft.Client.Send.{SendAnswer, send_heartbeat, send_message, drain_queue}
use hft.Client.Connection.{connect-Inv, disconnect-Inv}
use hft.Client.Keeps.{Keeps, Keeps-Inv}
use hft.Client.Receive.{RecvAnswer, receive_turn}
use hft.Client.Connection.{Inv, open_fds}
use hft.Client.Turns.{drain_queue-Inv, receive_turn-Inv}

module _ {D : Type 0} (F : Floats D) where
  send_message-Keeps : (m : Message) (c : Client D) → Keeps c (send_message m c).0
  unfolding send_message
  send_message-Keeps m c = record {
    socket_fd = ground arith;
    epoll_fd = ground arith;
    state = ground arith;
    open_now = ground arith;
  }

  -- What a caller and the threads do to a client, in any order; a reading that faults is no step.
  pub data Step (c : Client D) : Client D → Type 0 where
    connects : (a : ConnectAnswers) → Step c (connect a c).0
    disconnects : Step c (disconnect c)
    queues : (m : Message) → Step c (send_message m c).0
    sends : (answers : List SendAnswer) → Step c (drain_queue answers c)
    receives : {d : Client D} (answer : RecvAnswer F) → receive_turn F answer c ≡ some d → Step c d
    beats : (id now : ℕ) → Step c (heartbeat_turn id now c)
    -- The steps of the epoll thread. It begins when no earlier one has left a descriptor.
    opens_epoll : (answer : Option ℕ) → c.epoll_fd ≡ none → Step c (open_epoll answer c).0
    polls : {d : Client D} (xs : List ClientEvent) → epoll_turn F xs c ≡ some d → Step c d
    closes_epoll : Step c (close_epoll c)
    starts : Step c (start c)
    stops : Step c (stop c)
    resets : (now : ℕ) → Step c (reset_stats F now c)
    handles_messages : (f : Bool) → Step c (set_message_handler f c)
    handles_orders : (f : Bool) → Step c (set_order_handler f c)
    handles_market_data : (f : Bool) → Step c (set_market_data_handler f c)
    reconnects : (f : Bool) (ms : ℕ) → Step c (set_auto_reconnect f ms c)
    paces : (ms : ℕ) → Step c (set_heartbeat_interval ms c)

  pub data Run (c : Client D) : Client D → Type 0 where
    here : Run c c
    next : {d e : Client D} → Run c d → Step d e → Run c e

  heartbeat_turn-Keeps : (id now : ℕ) (c : Client D) → Keeps c (heartbeat_turn id now c)
  unfolding heartbeat_turn send_heartbeat send_message open_fds
  heartbeat_turn-Keeps id now c = record {
    socket_fd = ground arith;
    epoll_fd = ground arith;
    state = ground arith;
    open_now = ground arith;
  }

  start-Keeps : (c : Client D) → Keeps c (start c)
  unfolding start
  start-Keeps c = record {
    socket_fd = ground arith;
    epoll_fd = ground arith;
    state = ground arith;
    open_now = ground arith;
  }

  stop-Keeps : (c : Client D) → Keeps c (stop c)
  unfolding stop
  stop-Keeps c = record {
    socket_fd = ground arith;
    epoll_fd = ground arith;
    state = ground arith;
    open_now = ground arith;
  }

  Step-Inv : {c d : Client D} → Step c d → Inv c → Inv d
  unfolding reset_stats set_message_handler set_order_handler set_market_data_handler
      set_auto_reconnect set_heartbeat_interval
  Step-Inv {c = c} (connects a) v = (connect-Inv a c v).0
  Step-Inv {c = c} disconnects v = disconnect-Inv c v
  Step-Inv {c = c} (queues m) v = Keeps-Inv c (send_message m c).0 (send_message-Keeps m c) v
  Step-Inv {c = c} (sends answers) v = drain_queue-Inv F answers c v
  Step-Inv {c = c} {d = d} (receives answer e) v = receive_turn-Inv F answer c d v e
  Step-Inv {c = c} (beats id now) v =
      Keeps-Inv c (heartbeat_turn id now c) (heartbeat_turn-Keeps id now c) v
  Step-Inv {c = c} (opens_epoll answer e) v = open_epoll-Inv answer c e v
  Step-Inv {c = c} {d = d} (polls xs e) v = Keeps-Inv c d (epoll_turn-Keeps F xs c d e) v
  Step-Inv {c = c} closes_epoll v = close_epoll-Inv c v
  Step-Inv {c = c} starts v = Keeps-Inv c (start c) (start-Keeps c) v
  Step-Inv {c = c} stops v = Keeps-Inv c (stop c) (stop-Keeps c) v
  Step-Inv {c = c} (resets now) v = record {
    owns = λ x. ground (arith, v.owns x);
    socket_iff = v.socket_iff;
  }
  Step-Inv {c = c} (handles_messages f) v = record {
    owns = λ x. ground (arith, v.owns x);
    socket_iff = v.socket_iff;
  }
  Step-Inv {c = c} (handles_orders f) v = record {
    owns = λ x. ground (arith, v.owns x);
    socket_iff = v.socket_iff;
  }
  Step-Inv {c = c} (handles_market_data f) v = record {
    owns = λ x. ground (arith, v.owns x);
    socket_iff = v.socket_iff;
  }
  Step-Inv {c = c} (reconnects f ms) v = record {
    owns = λ x. ground (arith, v.owns x);
    socket_iff = v.socket_iff;
  }
  Step-Inv {c = c} (paces ms) v = record {
    owns = λ x. ground (arith, v.owns x);
    socket_iff = v.socket_iff;
  }

  Run-Inv : {c d : Client D} → Run c d → Inv c → Inv d
  Run-Inv here v = v
  Run-Inv (next r s) v = Step-Inv s (Run-Inv r v)

  -- At every point of every run of a new client, over connects, disconnects, messages,
  -- heartbeats, settings, resets, `start`, `stop` and the turns of the send, the receive and the
  -- epoll thread in any order, with any answers of the system, an epoll thread beginning when no
  -- descriptor of an earlier one is left: the descriptors that are open are those that the
  -- fields hold, and there is a socket just when the client is connected.
  pub life-Inv : (id now : ℕ) (d : Client D) → Run (new_client F id now) d → Inv d
  unfolding new_client open_fds
  life-Inv id now d r = Run-Inv r (record { owns = λ x. refl; socket_iff = refl })
