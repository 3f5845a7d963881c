-- ===== src/LatencyClient/Matching.antt =====
-- How responses are matched with send times, over the bytes of one `recv`.
use hft.Base.{
  ℕ, zero, suc, ◌+◌, ◌-◌, ◌/◌, ◌%◌, ◌^◌, ◌≤◌, ◌<◌, ◌≡◌, ◌⊎◌, Bool, refl, ap, sym, subst, ◌∙◌, true,
  false, inl, inr, List, [], ◌∷◌, All, arith, length, drop, leb, Bool-cases,
}
use hft.Message.Layout.{message_size}
use hft.Client.State.{sub64}
use hft.Client.Statistics.{sum}
use hft.LatencyClient.State.{Tester}
use hft.LatencyClient.Responses.{
  update_latency_stats, match_response, take_response, response_loop, process_responses,
}

-- The clock at each of `k` responses, from `offset` on.
abbrev pub response_times : (ℕ → ℕ) → ℕ → ℕ → List ℕ
response_times clock offset zero = []
response_times clock offset (suc k) = clock offset ∷ response_times clock (offset + message_size) k

-- The latencies: each response against the oldest send time that is left.
abbrev pub latencies : List ℕ → List ℕ → List ℕ
latencies [] pending = []
latencies (r ∷ rs) [] = []
latencies (r ∷ rs) (s ∷ pending) = sub64 r s ∷ latencies rs pending

-- What responses at the times `rs` make of `t`.
pub record IsMatched {D : Type 0} (rs : List ℕ) (t u : Tester D) : Type 0 where
  pub pending : u.latency_measurements ≡ drop (length rs) t.latency_measurements
  pub counted : u.messages_received ≡ (t.messages_received + length rs) % 2 ^ 64
  pub total :
      u.total_latency_ns ≡ (t.total_latency_ns + sum (latencies rs t.latency_measurements)) % 2 ^ 64
  pub low : All (λ x. u.min_latency_ns ≤ x) (latencies rs t.latency_measurements)
  pub low_before : u.min_latency_ns ≤ t.min_latency_ns
  pub high : All (λ x. x ≤ u.max_latency_ns) (latencies rs t.latency_measurements)
  pub high_before : t.max_latency_ns ≤ u.max_latency_ns

latencies_none : (rs : List ℕ) → latencies rs [] ≡ []
latencies_none [] = refl
latencies_none (r ∷ rs) = refl

drop_none : (n : ℕ) → drop {A = ℕ} n [] ≡ []
drop_none zero = refl
drop_none (suc n) = refl

pub List-cases : (l : List ℕ) → (l ≡ []) ⊎ ((s : ℕ) × (rest : List ℕ) × (l ≡ s ∷ rest))
List-cases [] = inl refl
List-cases (s ∷ rest) = inr (s, rest, refl)

module _ {D : Type 0} where
  pub take_all : List ℕ → Tester D → Tester D
  take_all [] t = t
  take_all (r ∷ rs) t = take_all rs (take_response r t)

  response_loop_lem :
      (fuel : ℕ) (clock : ℕ → ℕ) (n offset : ℕ) (t : Tester D)
      → n - offset ≤ fuel
      → response_loop fuel clock n offset t
        ≡ take_all (response_times clock offset ((n - offset) / message_size)) t
  unfolding response_loop take_all
  response_loop_lem zero clock n offset t h =
      ap (λ (k : ℕ). take_all (response_times clock offset k) t) nothing_left
    where
      nothing_left : 0 ≡ (n - offset) / message_size
      nothing_left = omega arith
  response_loop_lem (suc fuel) clock n offset t h =
      let rest =
        response_loop_lem fuel clock n (offset + message_size) (take_response (clock offset) t) in
      elim (Bool-cases (leb (offset + message_size) n)) [
        | inl more ↦
            ap turn more
            ∙ rest (ground arith)
            ∙ ap (λ (k : ℕ). take_all (response_times clock offset k) t) (sym (one_more more))
        | inr done ↦
            ap turn done
            ∙ ap (λ (k : ℕ). take_all (response_times clock offset k) t) (sym (nothing_left done))
      ]
    where
      turn : Bool → Tester D
      turn false = t
      turn true =
          response_loop fuel clock n (offset + message_size) (take_response (clock offset) t)

      one_more :
          leb (offset + message_size) n ≡ true
          → (n - offset) / message_size ≡ suc ((n - (offset + message_size)) / message_size)
      one_more more = ground arith

      nothing_left : leb (offset + message_size) n ≡ false → (n - offset) / message_size ≡ 0
      nothing_left done = ground arith

  unmatched_step :
      (r : ℕ) (rs : List ℕ) (t u : Tester D)
      → t.latency_measurements ≡ []
      → IsMatched rs (take_response r t) u
      → IsMatched (r ∷ rs) t u
  unfolding take_response match_response
  unmatched_step r rs t u e v = record {
    pending = ground (arith, e, v.pending, drop_none (length rs));
    counted = ground (arith, e, v.counted);
    total = ground (arith, e, v.total, latencies_none rs);
    low = rw e tt;
    low_before = ground (arith, e, v.low_before);
    high = rw e tt;
    high_before = ground (arith, e, v.high_before);
  }

  IsMatched-step :
      (r s : ℕ) (rs rest : List ℕ) (t u : Tester D)
      → t.latency_measurements ≡ s ∷ rest
      → IsMatched rs (take_response r t) u
      → IsMatched (r ∷ rs) t u
  unfolding take_response match_response update_latency_stats
  IsMatched-step r s rs rest t u e v = record {
    pending = ground (arith, e, v.pending);
    counted = ground (arith, e, v.counted);
    total = ground (arith, e, v.total);
    low = rw e (ground (arith, e, v.low_before), ground (arith, e, v.low));
    low_before = ground (arith, e, v.low_before);
    high = rw e (ground (arith, e, v.high_before), ground (arith, e, v.high));
    high_before = ground (arith, e, v.high_before);
  }

  bounded :
      (r : ℕ) (t : Tester D)
      → t.messages_received < 2 ^ 64
      → t.total_latency_ns < 2 ^ 64
      → ((take_response r t).messages_received < 2 ^ 64)
        × ((take_response r t).total_latency_ns < 2 ^ 64)
  unfolding take_response match_response update_latency_stats
  bounded r t h k = elim (List-cases t.latency_measurements) [
    | inl e ↦ (ground (arith, e), ground (arith, e))
    | inr (s, rest, e) ↦ (ground (arith, e), ground (arith, e))
  ]

  take_all-IsMatched :
      (rs : List ℕ) (t : Tester D)
      → t.messages_received < 2 ^ 64
      → t.total_latency_ns < 2 ^ 64
      → IsMatched rs t (take_all rs t)
  unfolding take_all
  take_all-IsMatched [] t h k = record {
    pending = refl;
    counted = omega arith;
    total = omega arith;
    low = tt;
    low_before = omega arith;
    high = tt;
    high_before = omega arith;
  }
  take_all-IsMatched (r ∷ rs) t h k =
      let v = take_all-IsMatched rs (take_response r t) (bounded r t h k).0 (bounded r t h k).1 in
      elim (List-cases t.latency_measurements) [
        | inl e ↦ unmatched_step r rs t (take_all rs (take_response r t)) e v
        | inr (s, rest, e) ↦ IsMatched-step r s rs rest t (take_all rs (take_response r t)) e v
      ]

  -- With counters below 2^64, the bytes of one `recv` hold as many responses as whole messages
  -- fit in them. Each is matched with the oldest send time that is left, in order: those send
  -- times are taken off, the responses are counted and the latencies added, modulo 2^64, and the
  -- minimum and the maximum bound them and only grow apart. A response for which no send time is
  -- left is counted only.
  pub responses-IsMatched :
      (clock : ℕ → ℕ) (n : ℕ) (t : Tester D)
      → t.messages_received < 2 ^ 64
      → t.total_latency_ns < 2 ^ 64
      → IsMatched (response_times clock 0 (n / message_size)) t (process_responses clock n t)
  unfolding process_responses
  responses-IsMatched clock n t h k =
      subst (IsMatched (response_times clock 0 (n / message_size)) t) (sym whole)
        (take_all-IsMatched (response_times clock 0 (n / message_size)) t h k)
    where
      none_before : n - 0 ≡ n
      none_before = omega arith

      whole : response_loop n clock n 0 t ≡ take_all (response_times clock 0 (n / message_size)) t
      whole =
          response_loop_lem n clock n 0 t (omega arith)
          ∙ ap (λ (m : ℕ). take_all (response_times clock 0 (m / message_size)) t) none_before
