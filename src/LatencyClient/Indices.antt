-- ===== src/LatencyClient/Indices.antt =====
-- src/latency_client.cpp: what `calculate_percentiles` reads in the sorted copy.
use hft.Base.{
  ℕ, ◌≤◌, ◌<◌, ◌≡◌, ◌⊎◌, refl, sym, subst, inl, inr, List, [], ◌∷◌, some, arith, length, get_elem?,
}
use hft.Base.Sort.{sort, sort-IsSorted, length-sort, get_elem?-below, get_elem?-mono}
use hft.LatencyClient.Matching.{List-cases}
use hft.LatencyClient.State.{Tester, Floats, Percentiles}
use hft.LatencyClient.Percentiles.{in_us, percentiles_of, calculate_percentiles}

-- What the index functions of `double` give for a size that is not 0: rising indices below it.
pub record IsRising {D : Type 0} (F : Floats D) : Type 0 where
  pub p50_p95 : (n : ℕ) → 0 < n → F.p50_index n ≤ F.p95_index n
  pub p95_p99 : (n : ℕ) → 0 < n → F.p95_index n ≤ F.p99_index n
  pub p99_p99_9 : (n : ℕ) → 0 < n → F.p99_index n ≤ F.p99_9_index n
  pub p99_9_below : (n : ℕ) → 0 < n → F.p99_9_index n < n

-- Four entries of the sorted `l`, in nanoseconds, and the percentiles that are computed from them.
pub record IsRanked {D : Type 0} (F : Floats D) (l : List ℕ) (ps : Percentiles D) : Type 0 where
  pub p50 : ℕ
  pub p95 : ℕ
  pub p99 : ℕ
  pub p99_9 : ℕ
  pub p50_entry : get_elem? (sort l) (F.p50_index (length l)) ≡ some p50
  pub p95_entry : get_elem? (sort l) (F.p95_index (length l)) ≡ some p95
  pub p99_entry : get_elem? (sort l) (F.p99_index (length l)) ≡ some p99
  pub p99_9_entry : get_elem? (sort l) (F.p99_9_index (length l)) ≡ some p99_9
  pub p50_p95 : p50 ≤ p95
  pub p95_p99 : p95 ≤ p99
  pub p99_p99_9 : p99 ≤ p99_9
  pub in_microseconds : ps ≡ record {
    p50_latency_us = in_us F p50;
    p95_latency_us = in_us F p95;
    p99_latency_us = in_us F p99;
    p99_9_latency_us = in_us F p99_9;
  }

module _ {D : Type 0} (F : Floats D) (rising : IsRising F) where
  percentiles_of-IsRanked :
      (l : List ℕ)
      → 0 < length l
      → (ps : Percentiles D) × (percentiles_of F (sort l) ≡ some ps) × IsRanked F l ps
  unfolding percentiles_of
  percentiles_of-IsRanked l h =
      let n = length l in
      let same = length-sort l in
      let e = rising.p50_p95 n h in
      let f = rising.p95_p99 n h in
      let g = rising.p99_p99_9 n h in
      let k = rising.p99_9_below n h in
      let (a, at_a) = get_elem?-below (sort l) (F.p50_index n) (omega (arith, e, f, g, k, same)) in
      let (b, at_b) = get_elem?-below (sort l) (F.p95_index n) (omega (arith, f, g, k, same)) in
      let (c, at_c) = get_elem?-below (sort l) (F.p99_index n) (omega (arith, g, k, same)) in
      let (d, at_d) = get_elem?-below (sort l) (F.p99_9_index n) (omega (arith, k, same)) in
      (
        record {
          p50_latency_us = in_us F a;
          p95_latency_us = in_us F b;
          p99_latency_us = in_us F c;
          p99_9_latency_us = in_us F d;
        },
        rw (same, at_a, at_b, at_c, at_d) refl,
        record {
          p50 = a;
          p95 = b;
          p99 = c;
          p99_9 = d;
          p50_entry = at_a;
          p95_entry = at_b;
          p99_entry = at_c;
          p99_9_entry = at_d;
          p50_p95 = get_elem?-mono (sort l) _ _ a b (sort-IsSorted l) e at_a at_b;
          p95_p99 = get_elem?-mono (sort l) _ _ b c (sort-IsSorted l) f at_b at_c;
          p99_p99_9 = get_elem?-mono (sort l) _ _ c d (sort-IsSorted l) g at_c at_d;
          in_microseconds = refl;
        },
      )

  -- Where the four index functions rise and stay below a size that is not 0,
  -- `calculate_percentiles` reads no entry past the end of the sorted copy. When send times wait
  -- for a response, it stores the entries of the sorted send times at the four indices, in
  -- microseconds, of which none is below the one before, and changes nothing else. When none
  -- waits, the client stays as it is.
  pub calculate_percentiles-IsRanked :
      (t : Tester D)
      → ((t.latency_measurements ≡ []) × (calculate_percentiles F t ≡ some t))
        ⊎ ((ps : Percentiles D) × (calculate_percentiles F t ≡ some (record t { percentiles = ps }))
            × IsRanked F t.latency_measurements ps)
  unfolding calculate_percentiles
  calculate_percentiles-IsRanked t = elim (List-cases t.latency_measurements) [
    | inl e ↦ inl (e, ground (arith, e))
    | inr (x, xs, e) ↦
        let (ps, found, ranked) = percentiles_of-IsRanked (x ∷ xs) (omega arith) in
        inr (ps, ground (arith, e, found), subst (λ (l : List ℕ). IsRanked F l ps) (sym e) ranked)
  ]
