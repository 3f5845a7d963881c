-- ===== src/LatencyClient/Percentiles.antt =====
-- src/latency_client.cpp: `calculate_percentiles` and `get_stats`.
use hft.Base.{◌>>=◌, ℕ, List, [], ◌∷◌, Option, none, some, length, ltb, get_elem?, if◌then◌else◌}
use hft.Base.Sort.{sort}
use hft.LatencyClient.State.{Tester, Floats, Percentiles}

pub record TestStats (D : Type 0) : Type 0 where
  pub total_messages_sent : ℕ
  pub total_messages_received : ℕ
  pub total_latency_ns : ℕ
  pub min_latency_ns : ℕ
  pub max_latency_ns : ℕ
  pub avg_latency_us : D
  pub percentiles : Percentiles D
  pub errors : ℕ
  pub throughput_mps : D

module _ {D : Type 0} (F : Floats D) where
  abbrev pub in_us : ℕ → D
  in_us ns = F.divide (F.of_count ns) F.thousand

  -- `none` is an index past the end.
  unfoldable pub percentiles_of : List ℕ → Option (Percentiles D)
  percentiles_of sorted = do
    p50 ← get_elem? sorted (F.p50_index (length sorted))
    p95 ← get_elem? sorted (F.p95_index (length sorted))
    p99 ← get_elem? sorted (F.p99_index (length sorted))
    p99_9 ← get_elem? sorted (F.p99_9_index (length sorted))
    some (record {
      p50_latency_us = in_us p50;
      p95_latency_us = in_us p95;
      p99_latency_us = in_us p99;
      p99_9_latency_us = in_us p99_9;
    })

  unfoldable pub calculate_percentiles : Tester D → Option (Tester D)
  unfolding percentiles_of sort
  calculate_percentiles t = elim t.latency_measurements [
    | [] ↦ some t
    | x ∷ xs ↦ elim (percentiles_of (sort (x ∷ xs))) [
      | none ↦ none
      | some ps ↦ some (record t { percentiles = ps })
    ]
  ]

  unfoldable pub stats_of : Tester D → TestStats D
  stats_of t = record {
    total_messages_sent = t.messages_sent;
    total_messages_received = t.messages_received;
    total_latency_ns = t.total_latency_ns;
    min_latency_ns = t.min_latency_ns;
    max_latency_ns = t.max_latency_ns;
    avg_latency_us =
        if ltb 0 t.messages_received
        then F.divide (in_us t.total_latency_ns) (F.of_count t.messages_received)
        else F.zero_double;
    percentiles = t.percentiles;
    errors = t.errors;
    throughput_mps =
        if ltb 0 t.messages_received
        then F.divide (F.of_count t.messages_received) F.one
        else F.zero_double;
  }

  unfoldable pub get_stats : Tester D → Option (Tester D × TestStats D)
  unfolding calculate_percentiles stats_of
  get_stats t = elim (calculate_percentiles t) [ none ↦ none | some t' ↦ some (t', stats_of t') ]
