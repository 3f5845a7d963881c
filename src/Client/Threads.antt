-- ===== src/Client/Threads.antt =====
-- src/hft_tcp_client.cpp: `start`, `stop`, and the threads for heartbeats and for epoll. A thread is
-- there from `start` to `stop`, while `running_` is set; the answers of the system are arguments.
use hft.Base.{ℕ, Bool, true, false, List, [], ◌∷◌, Option, none, some, length, ◌==◌, if◌then◌else◌}
use hft.Client.State.{Client, Floats, opened, slept, emit, is_connected}
use hft.Client.Connect.{close_epoll}
use hft.Client.Send.{send_heartbeat}
use hft.Client.Receive.{process_received_data, count_bytes}

-- What `recv` answers when an event for the socket has EPOLLIN: bytes with the two clocks, or none.
pub data Readable : Type 0 where
  bytes : List ℕ → ℕ → (ℕ → ℕ) → Readable
  no_bytes : Readable

-- An entry of `events`: the descriptor, whether EPOLLIN is set, and the answer of `recv`.
pub record ClientEvent : Type 0 where
  pub fd : ℕ
  pub readable : Bool
  pub answer : Readable

module _ {D : Type 0} where
  unfoldable pub start : Client D → Client D
  start c = if c.running then c else record c { running = true }

  unfoldable pub stop : Client D → Client D
  stop c = if c.running then record c { running = false } else c

  -- One turn of the loop of the heartbeat thread.
  unfoldable pub heartbeat_turn : ℕ → ℕ → Client D → Client D
  heartbeat_turn id now c =
      emit (slept c.heartbeat_interval_ms)
        (if is_connected c then (send_heartbeat id now c).0 else c)

  -- `epoll_create1`; the thread goes on when it succeeds.
  unfoldable pub open_epoll : Option ℕ → Client D → Client D × Bool
  open_epoll none c = (record c { epoll_fd = none }, false)
  open_epoll (some ep) c = (emit (opened ep) (record c { epoll_fd = some ep }), true)

module _ {D : Type 0} (F : Floats D) where
  unfoldable pub read_bytes : Readable → Client D → Option (Client D)
  unfolding count_bytes
  read_bytes no_bytes c = some c
  read_bytes (bytes [] now clock) c = some c
  read_bytes (bytes (b ∷ bs) now clock) c =
      process_received_data F clock (b ∷ bs) (count_bytes F (length (b ∷ bs)) now c)

  -- An event of another descriptor, or without EPOLLIN, is passed over.
  unfoldable pub handle_client_event : ClientEvent → Client D → Option (Client D)
  unfolding read_bytes
  handle_client_event e c = elim c.socket_fd [
    | none ↦ some c
    | some fd ↦
        if e.fd == fd then (if e.readable then read_bytes e.answer c else some c) else some c
  ]

  -- The events of one `epoll_wait`. That the socket is put in the set before it shows only in them.
  unfoldable pub epoll_turn : List ClientEvent → Client D → Option (Client D)
  unfolding handle_client_event
  epoll_turn [] c = some (emit (slept 1) c)
  epoll_turn (e ∷ es) c = elim (handle_client_event e c) [
    | none ↦ none
    | some c' ↦ epoll_turn es c'
  ]

  epoll_turns : List (List ClientEvent) → Client D → Option (Client D)
  unfolding epoll_turn
  epoll_turns [] c = some c
  epoll_turns (es ∷ ess) c = elim (epoll_turn es c) [ none ↦ none | some c' ↦ epoll_turns ess c' ]

  -- The epoll thread: its turns until `running_` is cleared, and the close of its descriptor.
  unfoldable pub epoll_thread_func :
      Option ℕ → List (List ClientEvent) → Client D → Option (Client D)
  unfolding open_epoll epoll_turns close_epoll
  epoll_thread_func answer turns c =
      let (polling, go_on) = open_epoll answer c in
      if go_on
      then (elim (epoll_turns turns polling) [ none ↦ none | some c' ↦ some (close_epoll c') ])
      else some polling
