-- ===== src/Server/Worker.antt =====
-- src/hft_server.cpp: `accept_connections` and `worker_thread`. What `accept`, the allocator, the
-- clock and `epoll_wait` answer are arguments.
use hft.Base.{
  ℕ, Bool, true, false, List, [], ◌∷◌, Option, none, some, length, leb, ◌==◌, if◌then◌else◌,
}
use hft.Server.State.{
  Server, Connection, new_connection, Address, Floats, opened, closed, watched, emit, increment,
  insert,
}
use hft.Server.Lifecycle.{setup_socket_options, set_non_blocking}
use hft.Server.Receive.{Recvs, handle_client_events}

-- `accepted` has the new descriptor, the peer, the address of the new `Connection`, the time, and
-- whether `epoll_ctl` succeeds. `no_client` is EAGAIN or another error: both only return.
pub data AcceptAnswer : Type 0 where
  accepted : ℕ → Address → ℕ → ℕ → Bool → AcceptAnswer
  no_client : AcceptAnswer

-- An entry of `events`: the listening socket has a null pointer, a client its `Connection`.
pub data Event : Type 0 where
  listener : AcceptAnswer → Event
  client : ℕ → Recvs → Event

-- What one `epoll_wait` answers.
pub data Wait : Type 0 where
  interrupted wait_failed : Wait
  ready : List Event → Wait

abbrev max : ℕ → ℕ → ℕ
max a b = if leb a b then b else a

-- The pointer of an event is an address: the live connection there, or `none` if it was freed.
abbrev pub deref : ℕ → List (ℕ × Connection) → Option Connection
deref p [] = none
deref p ((k, c) ∷ m) = if c.client_id == p then some c else deref p m

module _ {D : Type 0} where
  -- From `connections_[client_fd] = std::move(conn)` on, under the lock.
  unfoldable pub store_connection : ℕ → Connection → Server D → Server D
  unfolding insert
  store_connection client_fd conn s =
      let stored = insert client_fd conn s.connections in
      record s {
        connections = stored;
        stats = record stats {
          total_connections = increment stats.total_connections;
          peak_connections = max stats.peak_connections (length stored);
        };
      }
    where
      open s use {stats}

  unfoldable pub accept_connections : AcceptAnswer → Server D → Server D
  unfolding setup_socket_options set_non_blocking store_connection new_connection
  accept_connections no_client s = s
  accept_connections (accepted client_fd addr p now ctl_ok) s =
      let configured =
        set_non_blocking client_fd (setup_socket_options client_fd (emit (opened client_fd) s)) in
      let conn = record new_connection {
        fd = some client_fd;
        addr = addr;
        last_heartbeat = now;
        client_id = p;
      } in
      if ctl_ok
      then store_connection client_fd conn (emit (watched (some client_fd)) configured)
      else emit (closed (some client_fd)) configured

module _ {D : Type 0} (F : Floats D) where
  -- `handle_client_events(conn->fd)`; an event for a freed connection is a fault.
  unfoldable pub handle_event : Event → Server D → Option (Server D)
  unfolding accept_connections handle_client_events
  handle_event (listener a) s = some (accept_connections a s)
  handle_event (client p answers) s = elim (deref p s.connections) [
    | none ↦ none
    | some conn ↦ elim conn.fd [ none ↦ some s | some fd ↦ handle_client_events F fd answers s ]
  ]

  unfoldable pub handle_events : List Event → Server D → Option (Server D)
  unfolding handle_event
  handle_events [] s = some s
  handle_events (e ∷ es) s = elim (handle_event e s) [ none ↦ none | some s' ↦ handle_events es s' ]

  -- The loop of one worker, over the answers of its calls of `epoll_wait`.
  unfoldable pub worker_thread : List Wait → Server D → Option (Server D)
  unfolding handle_events
  worker_thread [] s = some s
  worker_thread (interrupted ∷ ws) s = if s.running then worker_thread ws s else some s
  worker_thread (wait_failed ∷ ws) s = some s
  worker_thread (ready es ∷ ws) s = elim s.running [
    | true ↦ elim (handle_events es s) [ none ↦ none | some s' ↦ worker_thread ws s' ]
    | false ↦ some s
  ]
