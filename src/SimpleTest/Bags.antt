-- ===== src/SimpleTest/Bags.antt =====
-- The statistics of the latency tests do not depend on the order of the latencies.
use hft.Base.{
  ◌>>=◌, ℕ, ◌-◌, ◌≡◌, refl, ap, sym, ◌∙◌, List, [], ◌∷◌, Option, some, arith, length, get_elem?,
}
use mathlib.Core.List.{Permᴰ}
use mathlib.Core.Quot
use mathlib.Core.Quot.{Quot, Quot-set}
use hft.Base.Sort.{insert_sorted, sort}
use hft.Client.Statistics.{sum}
use hft.LoadTest.Statistics.{Floats, Statistics, accumulate, assess}
use hft.LoadTest.Statistics as LoadStatistics
use hft.LoadTest.Order.{accumulate-sum}
use hft.SimpleTest.Statistics.{sorted_statistics, calculate_statistics}
use hft.SimpleTest.Agreement.{calculate_statistics-same}

insert_sorted_comm :
    (x y : ℕ) (l : List ℕ)
    → insert_sorted x (insert_sorted y l) ≡ insert_sorted y (insert_sorted x l)
unfolding insert_sorted
insert_sorted_comm x y [] = ground arith
insert_sorted_comm x y (z ∷ l) = ground (arith, insert_sorted_comm x y l)

sort-Perm : {l r : List ℕ} → Permᴰ l r → sort l ≡ sort r
unfolding sort
sort-Perm Permᴰ.nil = refl
sort-Perm (Permᴰ.cons {l₁ = l} {l₂ = r} e p) = ground (arith, e, sort-Perm p)
sort-Perm (Permᴰ.swap {a = a} {b = b} {l = l} e f) =
    ground (arith, e, f, insert_sorted_comm a b (sort l))
sort-Perm (Permᴰ.trans p q) = sort-Perm p ∙ sort-Perm q

sum-Perm : {l r : List ℕ} → Permᴰ l r → sum l ≡ sum r
sum-Perm Permᴰ.nil = refl
sum-Perm (Permᴰ.cons e p) = omega (arith, e, sum-Perm p)
sum-Perm (Permᴰ.swap e f) = omega (arith, e, f)
sum-Perm (Permᴰ.trans p q) = sum-Perm p ∙ sum-Perm q

length-Perm : {l r : List ℕ} → Permᴰ l r → length l ≡ length r
length-Perm Permᴰ.nil = refl
length-Perm (Permᴰ.cons e p) = omega (arith, length-Perm p)
length-Perm (Permᴰ.swap e f) = omega arith
length-Perm (Permᴰ.trans p q) = length-Perm p ∙ length-Perm q

module _ {D : Type 0} (F : Floats D) where
  -- The statistics of a sorted list, the total of the latencies and their number.
  summary : List ℕ → ℕ → ℕ → Option (Statistics D)
  unfolding assess
  summary sorted total count = do
    min_latency_ns ← get_elem? sorted 0
    max_latency_ns ← get_elem? sorted (length sorted - 1)
    p50 ← get_elem? sorted (F.p50_index (length sorted))
    p90 ← get_elem? sorted (F.p90_index (length sorted))
    p95 ← get_elem? sorted (F.p95_index (length sorted))
    p99 ← get_elem? sorted (F.p99_index (length sorted))
    p99_9 ← get_elem? sorted (F.p99_9_index (length sorted))
    some (record {
      total_messages = count;
      min_latency_ns = min_latency_ns;
      max_latency_ns = max_latency_ns;
      total_latency_ns = total;
      avg_latency_ns = F.divide (F.of_count total) (F.of_count count);
      p50 = p50;
      p90 = p90;
      p95 = p95;
      p99 = p99;
      p99_9 = p99_9;
      grade = assess F (F.divide (F.of_count total) (F.of_count count));
    })

  sorted_statistics-summary :
      (x : ℕ) (xs : List ℕ)
      → sorted_statistics F x xs ≡ summary (sort (x ∷ xs)) (accumulate 0 (x ∷ xs)) (length (x ∷ xs))
  unfolding sorted_statistics summary
  sorted_statistics-summary x xs = refl

  accumulate-Perm : {l r : List ℕ} → Permᴰ l r → accumulate 0 l ≡ accumulate 0 r
  accumulate-Perm {l = l} {r = r} p =
      omega (arith, accumulate-sum 0 l (omega arith), accumulate-sum 0 r (omega arith), sum-Perm p)

  sorted_statistics-Perm :
      (x y : ℕ) (xs ys : List ℕ)
      → Permᴰ (x ∷ xs) (y ∷ ys)
      → sorted_statistics F x xs ≡ sorted_statistics F y ys
  sorted_statistics-Perm x y xs ys p =
      sorted_statistics-summary x xs
      ∙ ap (λ l. summary l (accumulate 0 (x ∷ xs)) (length (x ∷ xs))) (sort-Perm p)
      ∙ ap (λ n. summary (sort (y ∷ ys)) n (length (x ∷ xs))) (accumulate-Perm p)
      ∙ ap (λ n. summary (sort (y ∷ ys)) (accumulate 0 (y ∷ ys)) n) (length-Perm p)
      ∙ sym (sorted_statistics-summary y ys)

  calculate_statistics-Perm :
      (l r : List ℕ) → Permᴰ l r → calculate_statistics F l ≡ calculate_statistics F r
  unfolding calculate_statistics
  calculate_statistics-Perm [] [] p = refl
  calculate_statistics-Perm [] (y ∷ ys) p = absurd (omega (arith, length-Perm p))
  calculate_statistics-Perm (x ∷ xs) [] p = absurd (omega (arith, length-Perm p))
  calculate_statistics-Perm (x ∷ xs) (y ∷ ys) p = ground (arith, sorted_statistics-Perm x y xs ys p)

  -- The statistics of both latency tests depend on the bag of the latencies alone: where `double`
  -- is a set, there is one function on the quotient of the lists by permutation that gives the
  -- outcome of either `calculate_statistics` on every list.
  pub statistics_of_bag :
      IsSet D
      → (f : Quot Permᴰ → Option (Option (Statistics D))) × ((l : List ℕ)
          → LoadStatistics.calculate_statistics F l ≡ f (Quot.mk l))
        × ((l : List ℕ) → calculate_statistics F l ≡ f (Quot.mk l))
  statistics_of_bag set = (
    Quot.lift (hlevel) (calculate_statistics F) (λ l r p. calculate_statistics-Perm l r p),
    λ l. sym (calculate_statistics-same F l),
    λ l. refl,
  )
