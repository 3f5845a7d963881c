-- ===== src/Server/Shutdown.antt =====
-- From `initialize` over any run of the event loop to `stop`.
use Prim.Native.String.{String}
use hft.Base.{
  ℕ, ◌-◌, ◌≡◌, refl, sym, ap, subst, ◌∙◌, if◌then◌else◌, Bool, true, false, List, [], ◌∷◌, Option,
  none, some, arith, ◌⊎◌, inl, inr, Option-cases, Bool-cases, ◌&&◌, All,
}
use hft.Server.State.{Server, Connection, emit, closed, joined}
use hft.Server.Lifecycle.{
  InitAnswers, initialize, stop, join_all, close_all, close_fd, unbind, join_workers, close_epoll,
  close_connections,
}
use hft.Server.Descriptors.{count, open_fds, held, keys, count-remove}
use hft.Server.Ownership.{Inv, IsKept}

module _ {D : Type 0} where
  -- What a successful `initialize` leaves: the listening socket and the epoll instance are open
  -- beside what was open before, and the server holds both.
  pub record IsListening (a : InitAnswers) (s t : Server D) : Type 0 where
    pub fd : ℕ
    pub ep : ℕ
    pub socket_answer : a.socket ≡ some fd
    pub epoll_answer : a.epoll ≡ some ep
    pub open_now : open_fds t.effects ≡ ep ∷ fd ∷ open_fds s.effects
    pub socket_held : t.server_socket ≡ some fd
    pub epoll_held : t.epoll_fd ≡ some ep
    pub same_connections : t.connections ≡ s.connections
    pub same_running : t.running ≡ s.running

  -- A failed `initialize` closes every descriptor that it opened, at whichever call it fails; a
  -- successful one leaves just its two descriptors open.
  pub initialize_descriptors :
      (ip : String) (port threads : ℕ) (a : InitAnswers) (s : Server D)
      → let (t, done) = initialize ip port threads a s in
        ((done ≡ false) × (open_fds t.effects ≡ open_fds s.effects))
        ⊎ ((done ≡ true) × IsListening a s t)
  unfolding initialize open_fds
  initialize_descriptors ip port threads a s = elim (Option-cases a.socket) [
    | inl e ↦ inl (ground arith, ground arith)
    | inr (fd, e) ↦ elim (Bool-cases (a.bind_ok && a.listen_ok)) [
      | inr refused ↦ inl (ground arith, ground arith)
      | inl bound ↦ elim (Option-cases a.epoll) [
        | inl f ↦ inl (ground arith, ground arith)
        | inr (ep, f) ↦ elim (Bool-cases a.ctl_ok) [
          | inr g ↦ inl (ground arith, ground arith)
          | inl g ↦ inr (
            ground arith,
            record {
              fd = fd;
              ep = ep;
              socket_answer = e;
              epoll_answer = f;
              open_now = ground arith;
              socket_held = ground arith;
              epoll_held = ground arith;
              same_connections = ground arith;
              same_running = ground arith;
            },
          )
        ]
      ]
    ]
  ]

  close_fd-count :
      (o : Option ℕ) (s : Server D) (x : ℕ)
      → count x (open_fds (close_fd o s).effects) ≡ count x (open_fds s.effects) - held x o
  unfolding close_fd open_fds
  close_fd-count none s x = omega arith
  close_fd-count (some fd) s x = ground (arith, count-remove x fd (open_fds s.effects))

  -- What a step of `stop` leaves alone.
  pub record Keeps (s t : Server D) : Type 0 where
    connections : t.connections ≡ s.connections
    epoll_fd : t.epoll_fd ≡ s.epoll_fd
    server_socket : t.server_socket ≡ s.server_socket
    worker_threads : t.worker_threads ≡ s.worker_threads
    pub running : t.running ≡ s.running

  pub keeps : {s : Server D} → Keeps s s
  keeps = record {
    connections = refl;
    epoll_fd = refl;
    server_socket = refl;
    worker_threads = refl;
    running = refl;
  }

  pub close_fd-Keeps : (o : Option ℕ) (s : Server D) → Keeps s (close_fd o s)
  unfolding close_fd
  close_fd-Keeps none s = keeps
  close_fd-Keeps (some fd) s = record {
    connections = refl;
    epoll_fd = refl;
    server_socket = refl;
    worker_threads = refl;
    running = refl;
  }

  pub join_all-Keeps :
      (ts : List ℕ) (s t : Server D)
      → Keeps s t
      → Keeps s (join_all ts t) × (open_fds (join_all ts t).effects ≡ open_fds t.effects)
  unfolding join_all open_fds
  join_all-Keeps [] s t k = (k, refl)
  join_all-Keeps (i ∷ ts) s t k = join_all-Keeps ts s (emit (joined i) t) (record {
    connections = k.connections;
    epoll_fd = k.epoll_fd;
    server_socket = k.server_socket;
    worker_threads = k.worker_threads;
    running = k.running;
  })

  pub close_all-Keeps :
      (m : List (ℕ × Connection)) (s t : Server D) → Keeps s t → Keeps s (close_all m t)
  unfolding close_all
  close_all-Keeps [] s t k = k
  close_all-Keeps ((_, c) ∷ m) s t k = close_all-Keeps m s (emit (closed c.fd) t) (record {
    connections = k.connections;
    epoll_fd = k.epoll_fd;
    server_socket = k.server_socket;
    worker_threads = k.worker_threads;
    running = k.running;
  })

  close_all-count :
      (m : List (ℕ × Connection)) (s : Server D)
      → All IsKept m
      → (x : ℕ)
      → count x (open_fds (close_all m s).effects) ≡ count x (open_fds s.effects) - count x (keys m)
  unfolding close_all keys open_fds
  close_all-count [] s h x = omega arith
  close_all-count ((k, c) ∷ m) s h x = ground (
    arith,
    h.0.0,
    close_all-count m (emit (closed c.fd) s) h.1 x,
    count-remove x k (open_fds s.effects),
  )

  -- The fields after the first three steps, and what is still open.
  record Unwound (s t : Server D) : Type 0 where
    connections : t.connections ≡ s.connections
    server_socket : t.server_socket ≡ none
    epoll_fd : t.epoll_fd ≡ none
    worker_threads : t.worker_threads ≡ []
    running : t.running ≡ false
    open_now :
        (x : ℕ)
        → count x (open_fds t.effects)
          ≡ count x (open_fds s.effects) - held x s.server_socket - held x s.epoll_fd

  unwound : (s : Server D) → Unwound s (close_epoll (join_workers (unbind s)))
  unfolding unbind join_workers close_epoll
  unwound s = record {
    connections = ground (arith, a.connections, b.0.connections, c.connections);
    server_socket = ground (arith, b.0.server_socket, c.server_socket);
    epoll_fd = refl;
    worker_threads = ground (arith, c.worker_threads);
    running = ground (arith, b.0.running, c.running);
    open_now = λ x. ground (
      arith,
      a.epoll_fd,
      b.0.epoll_fd,
      b.1,
      close_fd-count s.server_socket s x,
      close_fd-count (join_workers (unbind s)).epoll_fd (join_workers (unbind s)) x,
    );
  }
    where
      a : Keeps s (close_fd s.server_socket s)
      a = close_fd-Keeps s.server_socket s

      b :
          Keeps (unbind s) (join_all (unbind s).worker_threads (unbind s))
          × (open_fds (join_all (unbind s).worker_threads (unbind s)).effects
              ≡ open_fds (unbind s).effects)
      b = join_all-Keeps (unbind s).worker_threads (unbind s) (unbind s) keeps

      c :
          Keeps
            (join_workers (unbind s))
            (close_fd (join_workers (unbind s)).epoll_fd (join_workers (unbind s)))
      c = close_fd-Keeps (join_workers (unbind s)).epoll_fd (join_workers (unbind s))

  -- Nothing is open, and nothing is held.
  pub record IsShut (t : Server D) : Type 0 where
    pub none_open : (x : ℕ) → count x (open_fds t.effects) ≡ 0
    pub no_socket : t.server_socket ≡ none
    pub no_epoll : t.epoll_fd ≡ none
    pub no_connections : t.connections ≡ []
    pub no_workers : t.worker_threads ≡ []
    pub stopped : t.running ≡ false

  close_connections-IsShut : (s t : Server D) → Inv s → Unwound s t → IsShut (close_connections t)
  unfolding close_connections
  close_connections-IsShut s t v u = record {
    none_open = λ x. omega (
      arith,
      close_all-count t.connections t kept x,
      u.open_now x,
      v.owns x,
      ap (λ (m : List (ℕ × Connection)). count x (keys m)) u.connections,
    );
    no_socket = k.server_socket ∙ u.server_socket;
    no_epoll = k.epoll_fd ∙ u.epoll_fd;
    no_connections = refl;
    no_workers = k.worker_threads ∙ u.worker_threads;
    stopped = k.running ∙ u.running;
  }
    where
      k : Keeps t (close_all t.connections t)
      k = close_all-Keeps t.connections t t keeps

      kept : All IsKept t.connections
      kept = subst (All IsKept) (sym u.connections) v.kept

  stop_running :
      (s : Server D)
      → s.running ≡ true
      → stop s ≡ close_connections (close_epoll (join_workers (unbind s)))
  unfolding stop
  stop_running s r = ap (λ (b : Bool). if b then closing else s) r
    where
      closing : Server D
      closing = close_connections (close_epoll (join_workers (unbind s)))

  -- `stop` closes every descriptor that is open, and forgets the
  -- sockets, the connections and the threads.
  pub stop-IsShut : (s : Server D) → Inv s → IsShut (stop s)
  stop-IsShut s v =
      subst IsShut (sym (stop_running s v.is_running))
        (close_connections-IsShut s (close_epoll (join_workers (unbind s))) v (unwound s))
