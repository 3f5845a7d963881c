-- ===== src/SimpleClient/Link.antt =====
-- src/hft_tcp_client_simple.cpp: `connect` and `disconnect`. The answers of the system calls are
-- arguments.
use hft.Base.{ℕ, Bool, true, false, ◌∷◌, none, some, if◌then◌else◌}
use hft.Server.State.{reuse_addr, keep_alive, tcp_one, send_buffer_size, recv_buffer_size}
use hft.Client.State.{
  ClientStats, disconnected, connecting, connected, error, add64, is_connected_state,
  is_disconnected_state,
}
use hft.Client.Connect.{ConnectAnswers}
use hft.SimpleClient.State.{SimpleClient, opened, closed, option_set, made_non_blocking, emit}

module _ {D : Type 0} where
  unfoldable pub setup_socket_options : ℕ → SimpleClient D → SimpleClient D
  setup_socket_options fd c = record c {
    effects =
        option_set fd (recv_buffer_size 1048576)
        ∷ option_set fd (send_buffer_size 1048576)
        ∷ option_set fd keep_alive
        ∷ option_set fd tcp_one
        ∷ option_set fd reuse_addr
        ∷ c.effects;
  }

  unfoldable pub set_non_blocking : ℕ → SimpleClient D → SimpleClient D
  set_non_blocking fd c = emit (made_non_blocking fd) c

  -- `close(socket_fd_); socket_fd_ = -1; connection_state_.store(ERROR); return false;`
  unfoldable pub give_up : ℕ → SimpleClient D → SimpleClient D × Bool
  give_up fd c = (
    record c { socket_fd = none; connection_state = error; effects = closed fd ∷ c.effects },
    false,
  )

  count_attempt : ClientStats D → ClientStats D
  count_attempt s = record s { connection_attempts = add64 s.connection_attempts 1 }

  -- From `inet_pton` on, with the new socket.
  reach_server : ConnectAnswers → ℕ → SimpleClient D → SimpleClient D × Bool
  unfolding give_up count_attempt
  reach_server a fd c =
      if a.address_ok
      then (if a.connect_ok
          then (if a.select_ok
              then (if a.no_error
                  then (
                    record c { connection_state = connected; stats = count_attempt c.stats },
                    true,
                  )
                  else give_up fd c)
              else give_up fd c)
          else give_up fd c)
      else give_up fd c

  use_socket : ConnectAnswers → SimpleClient D → SimpleClient D × Bool
  unfolding reach_server setup_socket_options set_non_blocking
  use_socket a c = elim a.socket [
    | none ↦ (record c { socket_fd = none; connection_state = error }, false)
    | some fd ↦ reach_server a fd (
        set_non_blocking fd
          (setup_socket_options fd (emit (opened fd) (record c { socket_fd = some fd }))))
  ]

  unfoldable pub connect : ConnectAnswers → SimpleClient D → SimpleClient D × Bool
  unfolding use_socket
  connect a c =
      if is_connected_state c.connection_state
      then (c, true)
      else use_socket a (record c { connection_state = connecting })

  close_socket : SimpleClient D → SimpleClient D
  close_socket c = elim c.socket_fd [
    | none ↦ c
    | some fd ↦ record c { socket_fd = none; effects = closed fd ∷ c.effects }
  ]

  unfoldable pub disconnect : SimpleClient D → SimpleClient D
  unfolding close_socket
  disconnect c =
      if is_disconnected_state c.connection_state
      then c
      else close_socket (record c { connection_state = disconnected })
