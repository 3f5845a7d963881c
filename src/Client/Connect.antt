-- ===== src/Client/Connect.antt =====
-- src/hft_tcp_client.cpp: `connect`, `disconnect`, `handle_disconnection` and `attempt_reconnection`.
-- The answers of the system calls are arguments.
use hft.Base.{ℕ, Bool, true, false, List, [], ◌∷◌, Option, none, some, if◌then◌else◌}
use hft.Server.State.{reuse_addr, keep_alive, tcp_one, send_buffer_size, recv_buffer_size}
use hft.Client.State.{
  Client, ClientStats, disconnected, connecting, connected, reconnecting, error, opened, closed,
  option_set, made_non_blocking, slept, emit, add64, is_connected_state, is_disconnected_state,
}

-- What the calls of one `connect` answer: `socket`; whether `inet_pton` accepts the address; whether
-- `::connect` returns 0 or EINPROGRESS; whether `select` reports the socket before the timeout; and
-- whether `getsockopt` returns 0 with no pending error.
pub record ConnectAnswers : Type 0 where
  pub socket : Option ℕ
  pub address_ok : Bool
  pub connect_ok : Bool
  pub select_ok : Bool
  pub no_error : Bool

module _ {D : Type 0} where
  unfoldable pub setup_socket_options : ℕ → Client D → Client D
  setup_socket_options fd c = record c {
    effects =
        option_set fd (recv_buffer_size 1048576)
        ∷ option_set fd (send_buffer_size 1048576)
        ∷ option_set fd keep_alive
        ∷ option_set fd tcp_one
        ∷ option_set fd reuse_addr
        ∷ c.effects;
  }

  unfoldable pub set_non_blocking : ℕ → Client D → Client D
  set_non_blocking fd c = emit (made_non_blocking fd) c

  -- `close(socket_fd_); socket_fd_ = -1; connection_state_.store(ERROR); return false;`
  fail_connect : ℕ → Client D → Client D × Bool
  fail_connect fd c = (
    record c { socket_fd = none; connection_state = error; effects = closed fd ∷ c.effects },
    false,
  )

  count_connection : ClientStats D → ClientStats D
  count_connection s = record s { connection_attempts = add64 s.connection_attempts 1 }

  -- From `inet_pton` on, with the new socket.
  finish_connect : ConnectAnswers → ℕ → Client D → Client D × Bool
  unfolding fail_connect count_connection
  finish_connect a fd c =
      if a.address_ok
      then (if a.connect_ok
          then (if a.select_ok
              then (if a.no_error
                  then (
                    record c { connection_state = connected; stats = count_connection c.stats },
                    true,
                  )
                  else fail_connect fd c)
              else fail_connect fd c)
          else fail_connect fd c)
      else fail_connect fd c

  open_socket : ConnectAnswers → Client D → Client D × Bool
  unfolding finish_connect setup_socket_options set_non_blocking
  open_socket a c = elim a.socket [
    | none ↦ (record c { socket_fd = none; connection_state = error }, false)
    | some fd ↦ finish_connect a fd (
        set_non_blocking fd
          (setup_socket_options fd (emit (opened fd) (record c { socket_fd = some fd }))))
  ]

  unfoldable pub connect : ConnectAnswers → Client D → Client D × Bool
  unfolding open_socket
  connect a c =
      if is_connected_state c.connection_state
      then (c, true)
      else open_socket a (record c { connection_state = connecting })

  -- `if (socket_fd_ != -1) { close(socket_fd_); socket_fd_ = -1; }`
  unfoldable pub close_socket : Client D → Client D
  close_socket c = elim c.socket_fd [
    | none ↦ c
    | some fd ↦ record c { socket_fd = none; effects = closed fd ∷ c.effects }
  ]

  unfoldable pub close_epoll : Client D → Client D
  close_epoll c = elim c.epoll_fd [
    | none ↦ c
    | some fd ↦ record c { epoll_fd = none; effects = closed fd ∷ c.effects }
  ]

  unfoldable pub disconnect : Client D → Client D
  disconnect c =
      if is_disconnected_state c.connection_state
      then c
      else close_epoll (close_socket (record c { connection_state = disconnected }))

  count_reconnection : ClientStats D → ClientStats D
  count_reconnection s = record s { reconnection_attempts = add64 s.reconnection_attempts 1 }

  -- One call for each list entry. A call that fails sleeps and, while `auto_reconnect_` is set, is
  -- followed by another; the flag says whether the call at the end of the list was to be followed.
  unfoldable pub attempt_reconnection : List ConnectAnswers → Client D → Client D × Bool
  unfolding count_reconnection
  attempt_reconnection [] c = (c, true)
  attempt_reconnection (a ∷ as') c =
      let (tried, done) = connect a (record c { stats = count_reconnection c.stats }) in
      let waited = emit (slept c.reconnect_interval_ms) tried in
      let again = attempt_reconnection as' waited in
      if done then (tried, false) else if c.auto_reconnect then again else (waited, false)

  unfoldable pub handle_disconnection : List ConnectAnswers → Client D → Client D × Bool
  handle_disconnection answers c =
      let lost = close_socket (record c { connection_state = disconnected }) in
      let retried =
        attempt_reconnection answers (record lost { connection_state = reconnecting }) in
      if is_disconnected_state c.connection_state
      then (c, false)
      else if c.auto_reconnect
      then retried
      else (lost, false)
