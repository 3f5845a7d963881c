-- ===== src/LatencyClient/Link.antt =====
-- src/latency_client.cpp: `connect` and `disconnect`. The answers of the system calls are arguments.
use hft.Base.{ℕ, Bool, ◌&&◌, true, false, ◌∷◌, Option, none, some, if◌then◌else◌}
use hft.Server.State.{reuse_addr, keep_alive, tcp_one, send_buffer_size, recv_buffer_size}
use hft.Client.Connect.{ConnectAnswers}
use hft.LatencyClient.State.{
  Tester, opened, closed, option_set, made_non_blocking, receiver_joined, emit,
}

module _ {D : Type 0} where
  unfoldable pub setup_socket_options : ℕ → Tester D → Tester D
  setup_socket_options fd t = record t {
    effects =
        option_set fd (recv_buffer_size 1048576)
        ∷ option_set fd (send_buffer_size 1048576)
        ∷ option_set fd keep_alive
        ∷ option_set fd tcp_one
        ∷ option_set fd reuse_addr
        ∷ t.effects;
  }

  unfoldable pub set_non_blocking : ℕ → Tester D → Tester D
  set_non_blocking fd t = emit (made_non_blocking fd) t

  -- `connected_ = true` and the receiver thread. An assignment to a thread that is joinable ends
  -- the program: that is `none`.
  unfoldable pub start_receiver : Tester D → Option (Tester D × Bool)
  start_receiver t =
      if t.receiver_joinable
      then none
      else some
          (record t { connected = true; stop_receiver = false; receiver_joinable = true }, true)

  -- Each of the four failures closes the socket, and leaves `socket_fd_` as it is.
  unfoldable pub connect : ConnectAnswers → Tester D → Option (Tester D × Bool)
  unfolding start_receiver setup_socket_options set_non_blocking
  connect a t = elim a.socket [
    | none ↦ some (record t { socket_fd = none }, false)
    | some fd ↦
        let ready =
          set_non_blocking fd
            (setup_socket_options fd (emit (opened fd) (record t { socket_fd = some fd }))) in
        if a.address_ok && (a.connect_ok && (a.select_ok && a.no_error))
        then start_receiver ready
        else some (emit (closed fd) ready, false)
  ]

  unfoldable pub join_receiver : Tester D → Tester D
  join_receiver t =
      if t.receiver_joinable
      then emit receiver_joined (record t { receiver_joinable = false })
      else t

  unfoldable pub close_socket : Tester D → Tester D
  close_socket t = elim t.socket_fd [
    | none ↦ t
    | some fd ↦ emit (closed fd) (record t { socket_fd = none })
  ]

  unfoldable pub disconnect : Tester D → Tester D
  unfolding join_receiver close_socket
  disconnect t = close_socket (join_receiver (record t { connected = false; stop_receiver = true }))
