-- ===== src/SimpleClient/Average.antt =====
-- The average latency against the number of messages, in the two clients that compute it.
use hft.Base.{ℕ, ◌+◌, ◌-◌, ◌<◌, ◌^◌, ◌≡◌, inl, inr, some, arith, ltb, if◌then◌else◌, Option-cases}
use hft.Message.Types.{Message}
use hft.Client.State.{Client, ClientStats, Floats, sub64}
use hft.Client.Latency.{update_latency_stats, record_latency}
use hft.Client.Receive.{
  process_one as client_process_one, process_message as client_process_message,
}
use hft.SimpleClient.State.{SimpleClient}
use hft.SimpleClient.Receive.{process_one, process_message, count_and_measure, measure}

-- `(total / 1000.0) / n`
abbrev pub mean : {D : Type 0} → Floats D → ℕ → ℕ → D
mean F total n = F.divide (F.divide (F.of_count total) F.thousand) (F.of_count n)

module _ {D : Type 0} where
  process_message-stats :
      (m : Message) (c d : SimpleClient D) → process_message m c ≡ some d → d.stats ≡ c.stats
  unfolding process_message
  process_message-stats m c d e = ground (arith, e)

  client_process_message-stats :
      (m : Message) (c d : Client D) → client_process_message m c ≡ some d → d.stats ≡ c.stats
  unfolding client_process_message
  client_process_message-stats m c d e = ground (arith, e)

-- What a statistics says of its latencies after one more message.
record Counts {D : Type 0} (F : Floats D) (s t : ClientStats D) : Type 0 where
  one_more : t.messages_received ≡ s.messages_received + 1
  average : t.avg_latency_us ≡ mean F t.total_latency_ns (s.messages_received + 1)

module _ {D : Type 0} (F : Floats D) where
  -- The average is taken before the message is counted.
  record Lags (s t : ClientStats D) : Type 0 where
    same_count : t.messages_received ≡ s.messages_received
    average : t.avg_latency_us ≡ (
        if ltb 0 s.messages_received
        then mean F t.total_latency_ns s.messages_received
        else s.avg_latency_us)

  record_latency-Lags : (ns : ℕ) (s : ClientStats D) → Lags s (record_latency F ns s)
  unfolding record_latency
  record_latency-Lags ns s = record { same_count = ground arith; average = ground arith }

module _ {D : Type 0} (F : Floats D) (now : ℕ) (m : Message) (timed : 0 < m.timestamp) where
  count_and_measure-Counts :
      (c : SimpleClient D)
      → c.stats.messages_received + 1 < 2 ^ 64
      → Counts F c.stats (count_and_measure F now m c).stats
  unfolding count_and_measure measure
  count_and_measure-Counts c fits = record { one_more = ground arith; average = ground arith }

  simple_average :
      (c d : SimpleClient D)
      → c.stats.messages_received + 1 < 2 ^ 64
      → process_one F now m c ≡ some d
      → d.stats.avg_latency_us ≡ mean F d.stats.total_latency_ns d.stats.messages_received
  unfolding process_one
  simple_average c d fits run =
      let k = count_and_measure-Counts c fits in
      let same = process_message-stats m (count_and_measure F now m c) d run in
      ground (arith, k.one_more, k.average, same)

  client_average :
      (c d : Client D)
      → c.stats.messages_received + 1 < 2 ^ 64
      → client_process_one F now m c ≡ some d
      → d.stats.avg_latency_us ≡ (
          if ltb 0 c.stats.messages_received
          then mean F d.stats.total_latency_ns (d.stats.messages_received - 1)
          else c.stats.avg_latency_us)
  unfolding client_process_one update_latency_stats
  client_average c d fits run =
      let measured = update_latency_stats F (sub64 now m.timestamp) c in
      let l = record_latency-Lags F (sub64 now m.timestamp) c.stats in
      elim (Option-cases (client_process_message m measured)) [
        | inl fault ↦ absurd (ground (arith, run, fault, timed))
        | inr (u, handled) ↦
            let same = client_process_message-stats m measured u handled in
            ground (arith, run, handled, same, l.same_count, l.average, timed)
      ]

  -- For a message with a time stamp that is not 0, handled without a fault, and counters that do
  -- not wrap around: the average of the simple client is its total latency over the number of
  -- messages, this one included. The average of the other client is its total latency over the
  -- number of messages without this one, and at its first message the average is not computed at
  -- all.
  pub averages_compared :
      (c d : SimpleClient D) (c' d' : Client D)
      → c.stats.messages_received + 1 < 2 ^ 64
      → c'.stats.messages_received + 1 < 2 ^ 64
      → process_one F now m c ≡ some d
      → client_process_one F now m c' ≡ some d'
      → (d.stats.avg_latency_us ≡ mean F d.stats.total_latency_ns d.stats.messages_received)
        × (d'.stats.avg_latency_us ≡ (
            if ltb 0 c'.stats.messages_received
            then mean F d'.stats.total_latency_ns (d'.stats.messages_received - 1)
            else c'.stats.avg_latency_us))
  averages_compared c d c' d' fits fits' run run' =
      (simple_average c d fits run, client_average c' d' fits' run')
