-- ===== src/LoadTest/Order.antt =====
-- src/hft_latency_test_100k.cpp: the order of what `calculate_statistics` finds.
use hft.Base.{
  ℕ, zero, suc, ◌+◌, ◌%◌, ◌^◌, ◌≤◌, ◌<◌, ◌≡◌, ◌⊎◌, refl, ap, sym, ◌∙◌, inl, inr, List, [], ◌∷◌,
  some, All, arith, length, ltb, get_elem?, Bool-cases, if◌then◌else◌,
}
use hft.Base.Sort.{
  sort, All-sort, sort-IsSorted, length-sort, get_elem?-below, All-get_elem?, get_elem?-mono,
}
use hft.Client.Statistics.{sum}
use hft.LoadTest.Statistics.{
  Floats, Statistics, min_element, max_element, accumulate, statistics_of, calculate_statistics,
  assess,
}

-- What the index functions of `double` give for a size that is not 0: rising indices below it.
pub record IsRising {D : Type 0} (F : Floats D) : Type 0 where
  pub p50_p90 : (n : ℕ) → 0 < n → F.p50_index n ≤ F.p90_index n
  pub p90_p95 : (n : ℕ) → 0 < n → F.p90_index n ≤ F.p95_index n
  pub p95_p99 : (n : ℕ) → 0 < n → F.p95_index n ≤ F.p99_index n
  pub p99_p99_9 : (n : ℕ) → 0 < n → F.p99_index n ≤ F.p99_9_index n
  pub p99_9_below : (n : ℕ) → 0 < n → F.p99_9_index n < n

-- `m` is an entry of `l`.
abbrev pub IsEntry : ℕ → List ℕ → Type 0
IsEntry m l = (i : ℕ) × (get_elem? l i ≡ some m)

-- An entry of what is left after a comparison is one of the list.
IsEntry-skip :
    (m x y z : ℕ) (l : List ℕ) → (z ≡ x) ⊎ (z ≡ y) → IsEntry m (z ∷ l) → IsEntry m (x ∷ y ∷ l)
IsEntry-skip m x y z l (inl e) (zero, h) = (0, ap some (sym e) ∙ h)
IsEntry-skip m x y z l (inr e) (zero, h) = (1, ap some (sym e) ∙ h)
IsEntry-skip m x y z l e (suc i, h) = (suc (suc i), h)

-- `m` is an entry and no entry is lower, or higher.
abbrev pub IsLowest : ℕ → List ℕ → Type 0
IsLowest m l = IsEntry m l × All (λ y. m ≤ y) l

abbrev pub IsHighest : ℕ → List ℕ → Type 0
IsHighest m l = IsEntry m l × All (λ y. y ≤ m) l

pub min_element-IsLowest : (x : ℕ) (l : List ℕ) → IsLowest (min_element x l) (x ∷ l)
unfolding min_element
min_element-IsLowest x [] = ((0, refl), (omega arith, tt))
min_element-IsLowest x (y ∷ l) =
    let (among, (below, rest)) = min_element-IsLowest lower l in
    (
      IsEntry-skip (min_element lower l) x y lower l one_of among,
      (omega (arith, below, under.0), (omega (arith, below, under.1), rest)),
    )
  where
    lower : ℕ
    lower = if ltb y x then y else x

    one_of : (lower ≡ x) ⊎ (lower ≡ y)
    one_of = elim (Bool-cases (ltb y x)) [
      | inl e ↦ inr (ground (arith, e))
      | inr e ↦ inl (ground (arith, e))
    ]

    under : (lower ≤ x) × (lower ≤ y)
    under = (ground arith, ground arith)

pub max_element-IsHighest : (x : ℕ) (l : List ℕ) → IsHighest (max_element x l) (x ∷ l)
unfolding max_element
max_element-IsHighest x [] = ((0, refl), (omega arith, tt))
max_element-IsHighest x (y ∷ l) =
    let (among, (above, rest)) = max_element-IsHighest higher l in
    (
      IsEntry-skip (max_element higher l) x y higher l one_of among,
      (omega (arith, above, over.0), (omega (arith, above, over.1), rest)),
    )
  where
    higher : ℕ
    higher = if ltb x y then y else x

    one_of : (higher ≡ x) ⊎ (higher ≡ y)
    one_of = elim (Bool-cases (ltb x y)) [
      | inl e ↦ inr (ground (arith, e))
      | inr e ↦ inl (ground (arith, e))
    ]

    over : (x ≤ higher) × (y ≤ higher)
    over = (ground arith, ground arith)

pub accumulate-sum :
    (total : ℕ) (l : List ℕ) → total < 2 ^ 64 → accumulate total l ≡ (total + sum l) % 2 ^ 64
unfolding accumulate
accumulate-sum total [] h = omega arith
accumulate-sum total (x ∷ l) h =
    omega (arith, accumulate-sum ((total + x) % 2 ^ 64) l (omega arith))

-- The statistics of the latencies `l`.
pub record IsOrdered {D : Type 0} (l : List ℕ) (st : Statistics D) : Type 0 where
  pub lowest : IsLowest st.min_latency_ns l
  pub highest : IsHighest st.max_latency_ns l
  pub above_min : st.min_latency_ns ≤ st.p50
  pub p50_p90 : st.p50 ≤ st.p90
  pub p90_p95 : st.p90 ≤ st.p95
  pub p95_p99 : st.p95 ≤ st.p99
  pub p99_p99_9 : st.p99 ≤ st.p99_9
  pub below_max : st.p99_9 ≤ st.max_latency_ns
  pub counted : st.total_messages ≡ length l
  pub total : st.total_latency_ns ≡ sum l % 2 ^ 64

module _ {D : Type 0} (F : Floats D) (rising : IsRising F) where
  -- For any latencies but none at all, where the index functions of `double` rise and stay below
  -- the size, `calculate_statistics` reads inside the sorted copy. The minimum and the maximum
  -- are measured latencies that bound all of them, the percentiles rise between them, and the
  -- total is the sum modulo 2^64.
  pub calculate_statistics-IsOrdered :
      (x : ℕ) (xs : List ℕ)
      → (st : Statistics D) × (calculate_statistics F (x ∷ xs) ≡ some (some st))
        × IsOrdered (x ∷ xs) st
  unfolding calculate_statistics statistics_of
  calculate_statistics-IsOrdered x xs =
      let some_left : 0 < size = omega (arith, length-sort (x ∷ xs)) in
      let e = rising.p50_p90 size some_left in
      let f = rising.p90_p95 size some_left in
      let g = rising.p95_p99 size some_left in
      let h = rising.p99_p99_9 size some_left in
      let below = rising.p99_9_below size some_left in
      let (a, at_a) = get_elem?-below sorted (F.p50_index size) (omega arith) in
      let (b, at_b) = get_elem?-below sorted (F.p90_index size) (omega arith) in
      let (c, at_c) = get_elem?-below sorted (F.p95_index size) (omega arith) in
      let (d, at_d) = get_elem?-below sorted (F.p99_index size) (omega arith) in
      let (k, at_k) = get_elem?-below sorted (F.p99_9_index size) below in
      let low = min_element-IsLowest x xs in
      let high = max_element-IsHighest x xs in
      let up = sort-IsSorted (x ∷ xs) in
      (
        result a b c d k,
        ground (arith, at_a, at_b, at_c, at_d, at_k),
        record {
          lowest = low;
          highest = high;
          above_min =
              All-get_elem? (λ (y : ℕ). min_element x xs ≤ y) sorted (F.p50_index size) a
                (All-sort (λ (y : ℕ). min_element x xs ≤ y) (x ∷ xs) low.1) at_a;
          p50_p90 = get_elem?-mono sorted (F.p50_index size) (F.p90_index size) a b up e at_a at_b;
          p90_p95 = get_elem?-mono sorted (F.p90_index size) (F.p95_index size) b c up f at_b at_c;
          p95_p99 = get_elem?-mono sorted (F.p95_index size) (F.p99_index size) c d up g at_c at_d;
          p99_p99_9 =
              get_elem?-mono sorted (F.p99_index size) (F.p99_9_index size) d k up h at_d at_k;
          below_max =
              All-get_elem? (λ (y : ℕ). y ≤ max_element x xs) sorted (F.p99_9_index size) k
                (All-sort (λ (y : ℕ). y ≤ max_element x xs) (x ∷ xs) high.1) at_k;
          counted = refl;
          total =
              accumulate-sum 0 (x ∷ xs) (omega arith) ∙ ap (λ (n : ℕ). n % 2 ^ 64) (omega arith);
        },
      )
    where
      sorted : List ℕ
      sorted = sort (x ∷ xs)

      size : ℕ
      size = length sorted

      average : D
      average = F.divide (F.of_count (accumulate 0 (x ∷ xs))) (F.of_count (length (x ∷ xs)))

      result : ℕ → ℕ → ℕ → ℕ → ℕ → Statistics D
      result a b c d k = record {
        total_messages = length (x ∷ xs);
        min_latency_ns = min_element x xs;
        max_latency_ns = max_element x xs;
        total_latency_ns = accumulate 0 (x ∷ xs);
        avg_latency_ns = average;
        p50 = a;
        p90 = b;
        p95 = c;
        p99 = d;
        p99_9 = k;
        grade = assess F average;
      }
