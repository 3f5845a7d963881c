-- ===== src/LatencyClient/State.antt =====
-- inc/latency_client.h: the state of `LatencyTestClient`. `double` is a parameter.
use hft.Base.{ℕ, ◌-◌, ◌^◌, Bool, false, List, [], ◌∷◌, Option, none}
use hft.Server.State.{SocketOption}

-- The operations of `double` that are used; `p50_index` is `size * 0.5` as an index, and so on.
pub record Floats (D : Type 0) : Type 0 where
  pub zero_double : D
  pub of_count : ℕ → D
  pub divide : D → D → D
  pub one : D  -- 1.0
  pub thousand : D  -- 1000.0
  pub p50_index : ℕ → ℕ
  pub p95_index : ℕ → ℕ
  pub p99_index : ℕ → ℕ
  pub p99_9_index : ℕ → ℕ

-- What the client does to its descriptors and its threads.
pub data Effect : Type 0 where
  opened closed : ℕ → Effect
  option_set : ℕ → SocketOption → Effect
  made_non_blocking : ℕ → Effect
  sent : ℕ → List ℕ → Effect
  receiver_joined : Effect
  slept_ms slept_us : ℕ → Effect

pub record Percentiles (D : Type 0) : Type 0 where
  pub p50_latency_us : D
  pub p95_latency_us : D
  pub p99_latency_us : D
  pub p99_9_latency_us : D

pub record Tester (D : Type 0) : Type 0 where
  pub socket_fd : Option ℕ
  pub connected : Bool
  pub messages_sent : ℕ  -- uint64_t, as the next five
  pub messages_received : ℕ
  pub total_latency_ns : ℕ
  pub min_latency_ns : ℕ
  pub max_latency_ns : ℕ
  pub errors : ℕ
  pub latency_measurements : List ℕ  -- oldest first
  pub percentiles : Percentiles D
  pub receiver_joinable : Bool  -- there is a receiver thread to join
  pub stop_receiver : Bool
  pub effects : List Effect  -- newest first

module _ {D : Type 0} where
  abbrev pub emit : Effect → Tester D → Tester D
  emit e t = record t { effects = e ∷ t.effects }

  unfoldable pub reset_stats : Tester D → Tester D
  reset_stats t = record t {
    messages_sent = 0;
    messages_received = 0;
    total_latency_ns = 0;
    min_latency_ns = 2 ^ 64 - 1;
    max_latency_ns = 0;
    errors = 0;
    latency_measurements = [];
  }

  -- The constructor, and the initialisers of the fields.
  unfoldable pub new_tester : Floats D → Tester D
  new_tester F = record {
    socket_fd = none;
    connected = false;
    messages_sent = 0;
    messages_received = 0;
    total_latency_ns = 0;
    min_latency_ns = 2 ^ 64 - 1;
    max_latency_ns = 0;
    errors = 0;
    latency_measurements = [];
    percentiles = record {
      p50_latency_us = F.zero_double;
      p95_latency_us = F.zero_double;
      p99_latency_us = F.zero_double;
      p99_9_latency_us = F.zero_double;
    };
    receiver_joinable = false;
    stop_receiver = false;
    effects = [];
  }
