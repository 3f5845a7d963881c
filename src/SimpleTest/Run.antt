-- ===== src/SimpleTest/Run.antt =====
-- src/simple_latency_test.cpp: `connect`, `run_test` up to the statistics, and `disconnect`. The
-- clocks and the answers of the system are arguments.
use hft.Base.{ℕ, suc, Bool, true, false, List, [], ◌∷◌, ◌++◌, Option, none, some, take, ◌==◌}
use hft.Message.Types.{Message, MessageType, MessageStatus, new_message}
use hft.Message.Layout.{message_size}
use hft.Message.Codec.{encode_message}
use hft.Server.State.{SocketOption, reuse_addr, tcp_one}
use hft.Client.State.{sub64}

pub data Effect : Type 0 where
  opened closed : ℕ → Effect
  option_set : ℕ → SocketOption → Effect
  sent : ℕ → List ℕ → Effect

pub record SimpleTest : Type 0 where
  pub socket_fd : Option ℕ
  pub effects : List Effect  -- newest first

unfoldable pub new_simple_test : SimpleTest
new_simple_test = record { socket_fd = none; effects = [] }

-- The results of `socket` and of `connect`. The address is not checked.
unfoldable pub connect : Option ℕ → Bool → SimpleTest → SimpleTest × Bool
connect none connect_ok t = (record t { socket_fd = none }, false)
connect (some fd) connect_ok t = (
  record t {
    socket_fd = some fd;
    effects = option_set fd tcp_one ∷ option_set fd reuse_addr ∷ opened fd ∷ t.effects;
  },
  connect_ok,
)

unfoldable pub disconnect : SimpleTest → SimpleTest
disconnect t = elim t.socket_fd [
  | none ↦ t
  | some fd ↦ record t { socket_fd = none; effects = closed fd ∷ t.effects }
]

-- The message of the turn `i`.
unfoldable pub ping : ℕ → ℕ → Message
unfolding new_message
ping i now = record new_message {
  message_id = suc i;
  timestamp = now;
  message_type = MessageType.heartbeat;
  status = MessageStatus.pending;
  source_id = 1;
  destination_id = 0;
  payload_size = 0;
}

-- What the blocking `recv` does: it returns a number of bytes, fails, or waits for ever.
pub data Reply : Type 0 where
  received : ℕ → Reply
  failed silence : Reply

pub record Turn : Type 0 where
  pub now : ℕ
  pub send_ns : ℕ
  pub bytes_sent : Option ℕ  -- the result of `send`
  pub reply : Reply
  pub receive_ns : ℕ

-- The loop has ended with its latencies, or waits in `recv`.
pub data Outcome : Type 0 where
  measured blocked : List ℕ → SimpleTest → Outcome

abbrev pub is_whole : Option ℕ → Bool
is_whole none = false
is_whole (some n) = n == message_size

abbrev pub put_on_wire : Message → Option ℕ → SimpleTest → SimpleTest
put_on_wire msg none t = t
put_on_wire msg (some n) t = elim t.socket_fd [
  | none ↦ t
  | some fd ↦ record t { effects = sent fd (take n (encode_message msg)) ∷ t.effects }
]

-- The loop from the turn `i` on, with the latencies so far.
unfoldable pub run_turns : ℕ → List Turn → List ℕ → SimpleTest → Outcome
unfolding ping
run_turns i [] latencies t = measured latencies t
run_turns i (x ∷ xs) latencies t =
    let after = put_on_wire (ping i x.now) x.bytes_sent t in
    elim (is_whole x.bytes_sent) [
      | false ↦ run_turns (suc i) xs latencies after
      | true ↦ elim x.reply [
        | silence ↦ blocked latencies after
        | failed ↦ run_turns (suc i) xs latencies after
        | received n ↦ elim (n == message_size) [
          | false ↦ run_turns (suc i) xs latencies after
          | true ↦ run_turns (suc i) xs (latencies ++ sub64 x.receive_ns x.send_ns ∷ []) after
        ]
      ]
    ]

-- `run_test` up to `calculate_statistics`, with a turn for each message.
unfoldable pub run_test : List Turn → SimpleTest → Outcome
unfolding run_turns
run_test xs t = run_turns 0 xs [] t
