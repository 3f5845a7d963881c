-- ===== src/LoadTest/State.antt =====
-- src/hft_latency_test_100k.cpp: the state of `HFTLatencyTest100K`, `connect` and `disconnect`.
-- The answers of the system calls are arguments.
use hft.Base.{ℕ, Bool, ◌&&◌, true, false, List, [], ◌∷◌, Option, none, some, if◌then◌else◌}
use hft.Server.State.{
  SocketOption, reuse_addr, keep_alive, tcp_one, send_buffer_size, recv_buffer_size,
}
use hft.Client.Connect.{ConnectAnswers}

-- What the test does to its descriptors.
pub data Effect : Type 0 where
  opened closed : ℕ → Effect
  option_set : ℕ → SocketOption → Effect
  made_non_blocking : ℕ → Effect
  sent : ℕ → List ℕ → Effect
  slept_us : ℕ → Effect

pub record LoadTest : Type 0 where
  pub socket_fd : Option ℕ
  pub latency_measurements : List ℕ  -- oldest first
  pub send_times : List ℕ  -- oldest first
  pub effects : List Effect  -- newest first

unfoldable pub new_load_test : LoadTest
new_load_test = record {
  socket_fd = none;
  latency_measurements = [];
  send_times = [];
  effects = [];
}

abbrev pub emit : Effect → LoadTest → LoadTest
emit e t = record t { effects = e ∷ t.effects }

unfoldable pub setup_socket_options : ℕ → LoadTest → LoadTest
setup_socket_options fd t = record t {
  effects =
      option_set fd (recv_buffer_size 1048576)
      ∷ option_set fd (send_buffer_size 1048576)
      ∷ option_set fd keep_alive
      ∷ option_set fd tcp_one
      ∷ option_set fd reuse_addr
      ∷ t.effects;
}

unfoldable pub set_non_blocking : ℕ → LoadTest → LoadTest
set_non_blocking fd t = emit (made_non_blocking fd) t

-- Each of the four failures closes the socket, and leaves `socket_fd_` as it is.
unfoldable pub connect : ConnectAnswers → LoadTest → LoadTest × Bool
unfolding setup_socket_options set_non_blocking
connect a t = elim a.socket [
  | none ↦ (record t { socket_fd = none }, false)
  | some fd ↦
      let ready =
        set_non_blocking fd
          (setup_socket_options fd (emit (opened fd) (record t { socket_fd = some fd }))) in
      if a.address_ok && (a.connect_ok && (a.select_ok && a.no_error))
      then (ready, true)
      else (emit (closed fd) ready, false)
]

unfoldable pub disconnect : LoadTest → LoadTest
disconnect t = elim t.socket_fd [
  | none ↦ t
  | some fd ↦ record t { socket_fd = none; effects = closed fd ∷ t.effects }
]
