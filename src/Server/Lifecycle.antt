-- ===== src/Server/Lifecycle.antt =====
-- src/hft_server.cpp: `initialize`, `start` and `stop`. What the system calls answer is an argument.
use Prim.Native.String.{String}
use hft.Base.{
  ℕ, zero, suc, Bool, true, false, List, [], ◌∷◌, ◌++◌, Option, none, some, resize, if◌then◌else◌,
}
use hft.Server.State.{
  Server, Connection, opened, closed, option_set, made_non_blocking, watched, joined, reuse_addr,
  keep_alive, tcp_o_ndelay, send_buffer_size, recv_buffer_size, buffer_size, emit,
}

-- The results of `socket`, `bind`, `listen`, `epoll_create1` and `epoll_ctl`; a failure is -1.
pub record InitAnswers : Type 0 where
  pub socket : Option ℕ
  pub bind_ok : Bool
  pub listen_ok : Bool
  pub epoll : Option ℕ
  pub ctl_ok : Bool

-- `0, 1, …, n - 1`
unfoldable pub thread_ids : ℕ → List ℕ
thread_ids zero = []
thread_ids (suc n) = thread_ids n ++ n ∷ []

module _ {D : Type 0} where
  unfoldable pub setup_socket_options : ℕ → Server D → Server D
  setup_socket_options fd s = record s {
    effects =
        option_set fd (recv_buffer_size 1048576)
        ∷ option_set fd (send_buffer_size 1048576)
        ∷ option_set fd keep_alive
        ∷ option_set fd tcp_o_ndelay
        ∷ option_set fd reuse_addr
        ∷ s.effects;
  }

  unfoldable pub set_non_blocking : ℕ → Server D → Server D
  set_non_blocking fd s = emit (made_non_blocking fd) s

  -- From `epoll_create1` on.
  create_epoll : InitAnswers → Server D → Server D × Bool
  create_epoll a s = elim a.epoll [
    | none ↦ (emit (closed s.server_socket) (record s { epoll_fd = none }), false)
    | some ep ↦
        let polled = emit (opened ep) (record s { epoll_fd = some ep }) in
        if a.ctl_ok
        then (emit (watched s.server_socket) polled, true)
        else (emit (closed s.server_socket) (emit (closed (some ep)) polled), false)
  ]

  -- From `setup_socket_options` on, with the new socket.
  bind_and_listen : InitAnswers → ℕ → Server D → Server D × Bool
  unfolding create_epoll setup_socket_options set_non_blocking
  bind_and_listen a fd s =
      let ready = setup_socket_options fd s in
      if a.bind_ok
      then (if a.listen_ok
          then create_epoll a (set_non_blocking fd ready)
          else (emit (closed (some fd)) ready, false))
      else (emit (closed (some fd)) ready, false)

  unfoldable pub initialize : String → ℕ → ℕ → InitAnswers → Server D → Server D × Bool
  unfolding bind_and_listen
  initialize ip port thread_count a s =
      let configured = record s {
        server_ip = ip;
        server_port = port;
        thread_count = thread_count;
        send_buffer = resize buffer_size 0 s.send_buffer;
        recv_buffer = resize buffer_size 0 s.recv_buffer;
      } in
      elim a.socket [
        | none ↦ (record configured { server_socket = none }, false)
        | some fd ↦
            bind_and_listen a fd (emit (opened fd) (record configured { server_socket = some fd }))
      ]

  unfoldable pub start : Server D → Server D
  unfolding thread_ids
  start s = if s.running then s else record s {
    running = true;
    worker_threads = s.worker_threads ++ thread_ids s.thread_count;
  }

  unfoldable pub join_all : List ℕ → Server D → Server D
  join_all [] s = s
  join_all (t ∷ ts) s = join_all ts (emit (joined t) s)

  unfoldable pub close_all : List (ℕ × Connection) → Server D → Server D
  close_all [] s = s
  close_all ((fd, c) ∷ m) s = close_all m (emit (closed c.fd) s)

  -- `if (fd != -1) close(fd);`
  unfoldable pub close_fd : Option ℕ → Server D → Server D
  close_fd none s = s
  close_fd (some fd) s = emit (closed (some fd)) s

  -- The steps of `stop`, in order.
  unfoldable pub unbind : Server D → Server D
  unbind s = record (close_fd s.server_socket s) { running = false; server_socket = none }

  unfoldable pub join_workers : Server D → Server D
  join_workers s = record (join_all s.worker_threads s) { worker_threads = [] }

  unfoldable pub close_epoll : Server D → Server D
  close_epoll s = record (close_fd s.epoll_fd s) { epoll_fd = none }

  unfoldable pub close_connections : Server D → Server D
  close_connections s = record (close_all s.connections s) { connections = [] }

  unfoldable pub stop : Server D → Server D
  stop s = if s.running then close_connections (close_epoll (join_workers (unbind s))) else s
