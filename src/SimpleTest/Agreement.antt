-- ===== src/SimpleTest/Agreement.antt =====
-- The statistics of the two latency tests.
use hft.Base.{
  ℕ, suc, ◌-◌, ◌≤◌, ◌≡◌, refl, ap, ◌∙◌, subst, inl, inr, List, [], ◌∷◌, Option, none, some, All,
  All-map, arith, length, leb, get_elem?, Bool-cases, true, false,
}
use hft.Base.Sort.{
  insert_sorted, sort, IsSorted, All-sort, sort-IsSorted, length-sort, get_elem?-below,
  All-get_elem?,
}
use hft.LoadTest.Statistics.{Floats, Statistics, min_element, max_element, statistics_of}
use hft.LoadTest.Statistics as LoadStatistics
use hft.LoadTest.Order.{min_element-IsLowest, max_element-IsHighest}
use hft.SimpleTest.Statistics.{sorted_statistics, calculate_statistics}

All-insert_sorted_back {κ} :
    (P : ℕ → Type κ) (x : ℕ) (l : List ℕ) → All P (insert_sorted x l) → P x × All P l
unfolding insert_sorted
All-insert_sorted_back P x [] h = h
All-insert_sorted_back P x (y ∷ l) h = elim (Bool-cases (leb x y)) [
  | inl le ↦ subst (All P) (at le) h
  | inr gt ↦
      let (p, q) = subst (All P) (at' gt) h in
      let (r, s) = All-insert_sorted_back P x l q in (r, (p, s))
]
  where
    at : leb x y ≡ true → insert_sorted x (y ∷ l) ≡ x ∷ y ∷ l
    at le = ground (arith, le)

    at' : leb x y ≡ false → insert_sorted x (y ∷ l) ≡ y ∷ insert_sorted x l
    at' gt = ground (arith, gt)

All-sort_back {κ} : (P : ℕ → Type κ) (l : List ℕ) → All P (sort l) → All P l
unfolding sort
All-sort_back P [] h = tt
All-sort_back P (x ∷ l) h =
    let (p, q) = All-insert_sorted_back P x (sort l) h in (p, All-sort_back P l q)

-- The first of a sorted list is at most all of them, the last at least all of them.
front-lowest : (l : List ℕ) (a : ℕ) → IsSorted l → get_elem? l 0 ≡ some a → All (λ y. a ≤ y) l
front-lowest [] a h e = tt
front-lowest (x ∷ l) a (h, hs) e =
    (ground (arith, e), All-map (λ y. x ≤ y) (λ y. a ≤ y) (λ y le. ground (arith, e, le)) l h)

back-highest :
    (l : List ℕ) (b : ℕ) → IsSorted l → get_elem? l (length l - 1) ≡ some b → All (λ y. y ≤ b) l
back-highest [] b h e = tt
back-highest (x ∷ []) b h e = (ground (arith, e), tt)
back-highest (x ∷ y ∷ l) b (h, hs) e =
    let rest = back-highest (y ∷ l) b hs last in (omega (arith, h.0, rest.0), rest)
  where
    last : get_elem? (y ∷ l) (length (y ∷ l) - 1) ≡ some b
    last =
        ap (get_elem? (y ∷ l)) {x = suc (length l) - 1} {y = length l} (omega arith)
        ∙ ap (get_elem? (x ∷ y ∷ l)) {x = suc (length l)} {y = suc (suc (length l)) - 1}
            (omega arith)
        ∙ e

front-min_element : (x : ℕ) (xs : List ℕ) → get_elem? (sort (x ∷ xs)) 0 ≡ some (min_element x xs)
front-min_element x xs =
    let sorted = sort (x ∷ xs) in
    let (a, at_a) = get_elem?-below sorted 0 (omega (arith, length-sort (x ∷ xs))) in
    let ((i, at_i), low) = min_element-IsLowest x xs in
    let above =
      All-get_elem? (λ (y : ℕ). min_element x xs ≤ y) sorted 0 a
        (All-sort (λ (y : ℕ). min_element x xs ≤ y) (x ∷ xs) low) at_a in
    let below =
      All-get_elem? (λ (y : ℕ). a ≤ y) (x ∷ xs) i (min_element x xs)
        (All-sort_back (λ (y : ℕ). a ≤ y) (x ∷ xs)
          (front-lowest sorted a (sort-IsSorted (x ∷ xs)) at_a))
        at_i in
    let same : a ≡ min_element x xs = omega (arith, above, below) in at_a ∙ ap some same

back-max_element :
    (x : ℕ) (xs : List ℕ)
    → get_elem? (sort (x ∷ xs)) (length (sort (x ∷ xs)) - 1) ≡ some (max_element x xs)
back-max_element x xs =
    let sorted = sort (x ∷ xs) in
    let n = length sorted - 1 in
    let (b, at_b) = get_elem?-below sorted n (omega (arith, length-sort (x ∷ xs))) in
    let ((i, at_i), high) = max_element-IsHighest x xs in
    let below =
      All-get_elem? (λ (y : ℕ). y ≤ max_element x xs) sorted n b
        (All-sort (λ (y : ℕ). y ≤ max_element x xs) (x ∷ xs) high) at_b in
    let above =
      All-get_elem? (λ (y : ℕ). y ≤ b) (x ∷ xs) i (max_element x xs)
        (All-sort_back (λ (y : ℕ). y ≤ b) (x ∷ xs)
          (back-highest sorted b (sort-IsSorted (x ∷ xs)) at_b))
        at_i in
    let same : b ≡ max_element x xs = omega (arith, above, below) in at_b ∙ ap some same

module _ {D : Type 0} (F : Floats D) where
  sorted_statistics-same : (x : ℕ) (xs : List ℕ) → sorted_statistics F x xs ≡ statistics_of F x xs
  unfolding sorted_statistics statistics_of
  sorted_statistics-same x xs = ground (arith, front-min_element x xs, back-max_element x xs)

  -- The latency test that takes the minimum and the maximum from the ends of the sorted copy and
  -- the one that searches for them find the same statistics for the same latencies, with one
  -- outcome where an index is past the end and where there are no latencies.
  pub calculate_statistics-same :
      (latencies : List ℕ)
      → calculate_statistics F latencies ≡ LoadStatistics.calculate_statistics F latencies
  unfolding calculate_statistics LoadStatistics.calculate_statistics
  calculate_statistics-same [] = refl
  calculate_statistics-same (x ∷ xs) = ap found (sorted_statistics-same x xs)
    where
      found : Option (Statistics D) → Option (Option (Statistics D))
      found none = none
      found (some st) = some (some st)
