-- ===== src/Server/Run.antt =====
-- A whole life of the server.
use Prim.Native.String.{String}
use hft.Base.{ℕ, ◌≡◌, ◌≢◌, refl, false, true, inl, inr, [], some, arith}
use hft.Server.State.{Server, Floats, new_server}
use hft.Server.Lifecycle.{InitAnswers, initialize, start, stop}
use hft.Server.Worker.{Event, handle_event}
use hft.Server.Descriptors.{open_fds, keys}
use hft.Server.Ownership.{Inv}
use hft.Server.EventLoop.{Allowed, handle_event-Keeps}
use hft.Server.Shutdown.{IsListening, initialize_descriptors, IsShut, stop-IsShut}

module _ {D : Type 0} (F : Floats D) where
  -- The server as `main` starts it.
  abbrev pub started : String → ℕ → ℕ → InitAnswers → Server D
  started ip port threads a = start (initialize ip port threads a (new_server F)).0

  -- Any sequence of events that the environment may bring, in any order.
  pub data Reach (s : Server D) : Server D → Type 0 where
    here : Reach s s
    next :
        {t u : Server D} (e : Event)
        → Reach s t
        → Allowed F t e
        → handle_event F e t ≡ some u
        → Reach s u

  start-Inv :
      (a : InitAnswers) (s t : Server D)
      → IsListening a s t
      → a.socket ≢ a.epoll
      → s.running ≡ false
      → s.effects ≡ []
      → s.connections ≡ []
      → Inv (start t)
  unfolding start keys open_fds
  start-Inv a s t l apart off silent empty = record {
    owns = λ x. ground (
      arith, l.open_now, l.socket_held, l.epoll_held, l.same_connections, l.same_running, silent,
      off, empty,
    );
    distinct = λ x.
        ground
          (arith, l.open_now, l.same_running, silent, off, apart', l.socket_answer, l.epoll_answer);
    kept = ground (arith, l.same_connections, l.same_running, empty, off);
    peak = ground (arith, l.same_connections, l.same_running, empty, off);
    is_running = ground arith;
  }
    where
      apart' : l.fd ≢ l.ep
      apart' e = apart (ground (arith, l.socket_answer, l.epoll_answer, e))

  started-Inv :
      (ip : String) (port threads : ℕ) (a : InitAnswers)
      → (initialize ip port threads a (new_server F)).1 ≡ true
      → a.socket ≢ a.epoll
      → Inv (started ip port threads a)
  unfolding new_server
  started-Inv ip port threads a done apart =
      elim (initialize_descriptors ip port threads a (new_server F)) [
        | inl (refused, _) ↦ absurd (cc (refused, done))
        | inr (_, l) ↦ start-Inv a (new_server F) _ l apart refl refl refl
      ]

  Reach-Inv : {s t : Server D} → Inv s → Reach s t → Inv t
  Reach-Inv v here = v
  Reach-Inv v (next {t = t} e r ok run) = handle_event-Keeps F t _ e (Reach-Inv v r) ok run

  -- Whatever happens between `start` and `stop`, `stop` leaves no descriptor open: provided that
  -- `initialize` succeeded, that the kernel gave the socket and the epoll instance different
  -- descriptors, and that each later event is one that the kernel and the allocator allow.
  pub stop_after_run :
      (ip : String) (port threads : ℕ) (a : InitAnswers) (t : Server D)
      → (initialize ip port threads a (new_server F)).1 ≡ true
      → a.socket ≢ a.epoll
      → Reach (started ip port threads a) t
      → IsShut (stop t)
  stop_after_run ip port threads a t done apart r =
      stop-IsShut t (Reach-Inv (started-Inv ip port threads a done apart) r)

  -- At every point of a run that starts with a successful `initialize` and `start`, with
  -- different descriptors for the socket and the epoll instance, and goes on with events that
  -- the kernel and the allocator allow: the open descriptors are those that the server holds,
  -- none is held twice, every stored connection has its key as descriptor and is not
  -- authenticated, the peak is at least the number of connections, and the server is running.
  pub run-Inv :
      (ip : String) (port threads : ℕ) (a : InitAnswers) (t : Server D)
      → (initialize ip port threads a (new_server F)).1 ≡ true
      → a.socket ≢ a.epoll
      → Reach (started ip port threads a) t
      → Inv t
  run-Inv ip port threads a t done apart r = Reach-Inv (started-Inv ip port threads a done apart) r
