-- ===== src/SimpleTest/Statistics.antt =====
-- src/simple_latency_test.cpp: `calculate_statistics`. The results and the operations of `double`
-- are those of the other latency test.
use hft.Base.{◌>>=◌, ℕ, ◌-◌, List, [], ◌∷◌, Option, none, some, length, get_elem?}
use hft.Base.Sort.{sort}
use hft.LoadTest.Statistics.{Floats, Statistics, accumulate, assess}

module _ {D : Type 0} (F : Floats D) where
  -- For latencies that begin with `x`. `none` is an index past the end.
  unfoldable pub sorted_statistics : ℕ → List ℕ → Option (Statistics D)
  unfolding sort accumulate assess
  sorted_statistics x xs = do
    min_latency_ns ← get_elem? sorted 0
    max_latency_ns ← get_elem? sorted (size - 1)
    p50 ← get_elem? sorted (F.p50_index size)
    p90 ← get_elem? sorted (F.p90_index size)
    p95 ← get_elem? sorted (F.p95_index size)
    p99 ← get_elem? sorted (F.p99_index size)
    p99_9 ← get_elem? sorted (F.p99_9_index size)
    some (record {
      total_messages = length (x ∷ xs);
      min_latency_ns = min_latency_ns;
      max_latency_ns = max_latency_ns;
      total_latency_ns = accumulate 0 (x ∷ xs);
      avg_latency_ns = average;
      p50 = p50;
      p90 = p90;
      p95 = p95;
      p99 = p99;
      p99_9 = p99_9;
      grade = assess F average;
    })
    where
      sorted : List ℕ
      sorted = sort (x ∷ xs)

      size : ℕ
      size = length sorted

      average : D
      average = F.divide (F.of_count (accumulate 0 (x ∷ xs))) (F.of_count (length (x ∷ xs)))

  -- With no measurements only a line is written.
  unfoldable pub calculate_statistics : List ℕ → Option (Option (Statistics D))
  unfolding sorted_statistics
  calculate_statistics [] = some none
  calculate_statistics (x ∷ xs) = elim (sorted_statistics x xs) [
    | none ↦ none
    | some st ↦ some (some st)
  ]
