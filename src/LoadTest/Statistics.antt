-- ===== src/LoadTest/Statistics.antt =====
-- src/hft_latency_test_100k.cpp: `calculate_statistics`. `double` is a parameter.
use hft.Base.{
  ◌>>=◌, ℕ, ◌+◌, ◌%◌, ◌^◌, Bool, List, [], ◌∷◌, Option, none, some, length, ltb, get_elem?,
  if◌then◌else◌,
}
use hft.Base.Sort.{sort}

-- The operations of `double` that are used; `p50_index` is `size * 0.50` as an index, and so on.
pub record Floats (D : Type 0) : Type 0 where
  pub of_count : ℕ → D
  pub divide : D → D → D
  pub is_less : D → ℕ → Bool
  pub p50_index : ℕ → ℕ
  pub p90_index : ℕ → ℕ
  pub p95_index : ℕ → ℕ
  pub p99_index : ℕ → ℕ
  pub p99_9_index : ℕ → ℕ

-- The line of the performance assessment.
pub data Grade : Type 0 where
  excellent very_good good fair poor : Grade

pub record Statistics (D : Type 0) : Type 0 where
  pub total_messages : ℕ
  pub min_latency_ns : ℕ
  pub max_latency_ns : ℕ
  pub total_latency_ns : ℕ
  pub avg_latency_ns : D
  pub p50 : ℕ
  pub p90 : ℕ
  pub p95 : ℕ
  pub p99 : ℕ
  pub p99_9 : ℕ
  pub grade : Grade

-- `std::min_element` and `std::max_element` of a list that begins with `x`.
unfoldable pub min_element : ℕ → List ℕ → ℕ
min_element x [] = x
min_element x (y ∷ ys) = min_element (if ltb y x then y else x) ys

unfoldable pub max_element : ℕ → List ℕ → ℕ
max_element x [] = x
max_element x (y ∷ ys) = max_element (if ltb x y then y else x) ys

-- `std::accumulate` from `0ULL`.
unfoldable pub accumulate : ℕ → List ℕ → ℕ
accumulate total [] = total
accumulate total (x ∷ xs) = accumulate ((total + x) % 2 ^ 64) xs

module _ {D : Type 0} (F : Floats D) where
  unfoldable pub assess : D → Grade
  assess avg_latency_ns =
      if F.is_less avg_latency_ns 1000
      then excellent
      else if F.is_less avg_latency_ns 10000
      then very_good
      else if F.is_less avg_latency_ns 100000
      then good
      else if F.is_less avg_latency_ns 1000000
      then fair
      else poor

  -- For latencies that begin with `x`. `none` is an index past the end.
  unfoldable pub statistics_of : ℕ → List ℕ → Option (Statistics D)
  unfolding sort min_element max_element accumulate assess
  statistics_of x xs = do
    p50 ← get_elem? sorted (F.p50_index size)
    p90 ← get_elem? sorted (F.p90_index size)
    p95 ← get_elem? sorted (F.p95_index size)
    p99 ← get_elem? sorted (F.p99_index size)
    p99_9 ← get_elem? sorted (F.p99_9_index size)
    some (record {
      total_messages = length (x ∷ xs);
      min_latency_ns = min_element x xs;
      max_latency_ns = max_element x xs;
      total_latency_ns = accumulate 0 (x ∷ xs);
      avg_latency_ns = average;
      p50 = p50;
      p90 = p90;
      p95 = p95;
      p99 = p99;
      p99_9 = p99_9;
      grade = assess average;
    })
    where
      sorted : List ℕ
      sorted = sort (x ∷ xs)

      size : ℕ
      size = length sorted

      average : D
      average = F.divide (F.of_count (accumulate 0 (x ∷ xs))) (F.of_count (length (x ∷ xs)))

  -- With no measurements only a line is written.
  unfoldable pub calculate_statistics : List ℕ → Option (Option (Statistics D))
  unfolding statistics_of
  calculate_statistics [] = some none
  calculate_statistics (x ∷ xs) = elim (statistics_of x xs) [
    | none ↦ none
    | some st ↦ some (some st)
  ]
