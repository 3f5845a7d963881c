-- ===== src/Client/Latency.antt =====
-- src/hft_tcp_client.cpp: `update_latency_stats` and `calculate_average_latency`.
use hft.Base.{ℕ, List, [], ◌∷◌, ◌++◌, length, ltb, drop, if◌then◌else◌}
use hft.Client.State.{Client, ClientStats, Floats, add64}

-- How many measurements are kept.
abbrev pub window : ℕ
window = 10000

unfoldable pub remember : ℕ → List ℕ → List ℕ
remember latency_ns measurements =
    let pushed = measurements ++ latency_ns ∷ [] in
    if ltb window (length pushed) then drop 1 pushed else pushed

module _ {D : Type 0} (F : Floats D) where
  unfoldable pub calculate_average_latency : ClientStats D → ClientStats D
  calculate_average_latency s =
      if ltb 0 s.messages_received
      then record s {
        avg_latency_us =
            F.divide (F.divide (F.of_count s.total_latency_ns) F.thousand)
              (F.of_count s.messages_received);
      }
      else s

  unfoldable pub record_latency : ℕ → ClientStats D → ClientStats D
  unfolding calculate_average_latency
  record_latency latency_ns s = calculate_average_latency (record s {
    total_latency_ns = add64 s.total_latency_ns latency_ns;
    min_latency_ns = if ltb latency_ns s.min_latency_ns then latency_ns else s.min_latency_ns;
    max_latency_ns = if ltb s.max_latency_ns latency_ns then latency_ns else s.max_latency_ns;
  })

  unfoldable pub update_latency_stats : ℕ → Client D → Client D
  unfolding remember record_latency
  update_latency_stats latency_ns c = record c {
    latency_measurements = remember latency_ns c.latency_measurements;
    stats = record_latency latency_ns c.stats;
  }
