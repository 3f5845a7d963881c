-- ===== src/Client/Statistics.antt =====
-- The latency statistics against the whole history of measurements.
use Prim.Native.Nat.{min, max}
use native.Mathlib.Decide.{dec_lt}
use hft.Base.{
  ℕ, zero, suc, ◌+◌, ◌-◌, ◌%◌, ◌^◌, ◌≤◌, ◌<◌, ◌≡◌, refl, sym, ap, ◌∙◌, ◌⊎◌, inl, inr, List, [], ◌∷◌,
  ◌++◌, arith, append-nil, append_assoc, subst, length, length-append, length-drop, drop, All,
  All-append, All-map,
}
use hft.Client.State.{Client, ClientStats, Floats, reset_stats}
use hft.Client.Latency.{window, remember, record_latency, update_latency_stats}

abbrev pub sum : List ℕ → ℕ
sum [] = 0
sum (x ∷ xs) = x + sum xs

abbrev pub Has : ℕ → List ℕ → Type 0
Has x [] = ⊥
Has x (y ∷ ys) = (x ≡ y) ⊎ Has x ys

-- The last entries of a history, as many as are kept.
abbrev pub recent : List ℕ → List ℕ
recent h = drop (length h - window) h

-- What the fields say of all the latencies since the statistics were reset.
pub record IsSummary {D : Type 0} (h : List ℕ) (c : Client D) : Type 0 where
  pub kept : c.latency_measurements ≡ recent h
  pub total : c.stats.total_latency_ns ≡ sum h % 2 ^ 64
  pub low : All (λ x. c.stats.min_latency_ns ≤ x) h
  pub high : All (λ x. x ≤ c.stats.max_latency_ns) h
  pub low_attained : (c.stats.min_latency_ns ≡ 2 ^ 64 - 1) ⊎ Has c.stats.min_latency_ns h
  pub high_attained : (c.stats.max_latency_ns ≡ 0) ⊎ Has c.stats.max_latency_ns h

sum-append : (xs ys : List ℕ) → sum (xs ++ ys) ≡ sum xs + sum ys
sum-append [] ys = omega arith
sum-append (x ∷ xs) ys = omega (arith, sum-append xs ys)

Has-append_left : (x : ℕ) (xs ys : List ℕ) → Has x xs → Has x (xs ++ ys)
Has-append_left x [] ys h = absurd h
Has-append_left x (y ∷ xs) ys (inl e) = inl e
Has-append_left x (y ∷ xs) ys (inr h) = inr (Has-append_left x xs ys h)

Has-append_last : (x : ℕ) (xs : List ℕ) → Has x (xs ++ x ∷ [])
Has-append_last x [] = inl refl
Has-append_last x (y ∷ xs) = inr (Has-append_last x xs)

drop-append_le : (n : ℕ) (xs ys : List ℕ) → n ≤ length xs → drop n (xs ++ ys) ≡ drop n xs ++ ys
drop-append_le zero xs ys h = refl
drop-append_le (suc n) [] ys h = absurd (omega arith)
drop-append_le (suc n) (x ∷ xs) ys h = drop-append_le n xs ys (omega arith)

drop_one-drop : (m : ℕ) (xs : List ℕ) → drop 1 (drop m xs) ≡ drop (suc m) xs
drop_one-drop zero xs = refl
drop_one-drop (suc m) [] = refl
drop_one-drop (suc m) (x ∷ xs) = drop_one-drop m xs

-- While there is room the measurement is only added.
remember_room :
    (x : ℕ) (h : List ℕ) → length h < window → remember x (recent h) ≡ recent (h ++ x ∷ [])
unfolding remember
remember_room x h room =
    let none_gone : length h - window ≡ 0 = omega arith in
    let none_goes : length (h ++ x ∷ []) - window ≡ 0 = omega (arith, length-append h (x ∷ [])) in
    rw (none_gone, none_goes) (ground (arith, length-append h (x ∷ []), room))

-- After that the oldest goes.
remember_full :
    (x : ℕ) (h : List ℕ) → window ≤ length h → remember x (recent h) ≡ recent (h ++ x ∷ [])
unfolding remember
remember_full x h full =
    full_window
    ∙ ap (drop 1) (sym (drop-append_le (length h - window) h (x ∷ []) (omega arith)))
    ∙ drop_one-drop (length h - window) (h ++ x ∷ [])
    ∙ ap (λ (n : ℕ). drop n (h ++ x ∷ [])) one_more
  where
    one_more : suc (length h - window) ≡ length (h ++ x ∷ []) - window
    one_more = omega (arith, length-append h (x ∷ []))

    full_window : remember x (recent h) ≡ drop 1 (recent h ++ x ∷ [])
    full_window =
        ground (arith, full, length-append (recent h) (x ∷ []), length-drop (length h - window) h)

remember-recent : (x : ℕ) (h : List ℕ) → remember x (recent h) ≡ recent (h ++ x ∷ [])
remember-recent x h = elim (dec_lt (length h) window) [
  | yes room ↦ remember_room x h room
  | no full ↦ remember_full x h (omega arith)
]

min_choice : (x y : ℕ) {m : ℕ} → m ≡ min x y → (m ≡ x) ⊎ (m ≡ y)
min_choice x y e = elim (dec_lt x y) [ yes p ↦ inl (omega arith) | no p ↦ inr (omega arith) ]

max_choice : (x y : ℕ) {m : ℕ} → m ≡ max x y → (m ≡ x) ⊎ (m ≡ y)
max_choice x y e = elim (dec_lt x y) [ yes p ↦ inr (omega arith) | no p ↦ inl (omega arith) ]

attained :
    (x k : ℕ) (h : List ℕ) {m old : ℕ}
    → (m ≡ x) ⊎ (m ≡ old)
    → (old ≡ k) ⊎ Has old h
    → (m ≡ k) ⊎ Has m (h ++ x ∷ [])
attained x k h (inl e) was = inr (rw e (Has-append_last x h))
attained x k h (inr e) (inl first) = inl (e ∙ first)
attained x k h (inr e) (inr seen) = inr (rw e (Has-append_left _ h (x ∷ []) seen))

module _ {D : Type 0} (F : Floats D) where
  min_after :
      (x : ℕ) (s : ClientStats D) → (record_latency F x s).min_latency_ns ≡ min x s.min_latency_ns
  unfolding record_latency
  min_after x s = ground arith

  max_after :
      (x : ℕ) (s : ClientStats D) → (record_latency F x s).max_latency_ns ≡ max x s.max_latency_ns
  unfolding record_latency
  max_after x s = ground arith

  total_after :
      (x : ℕ) (s : ClientStats D)
      → (record_latency F x s).total_latency_ns ≡ (s.total_latency_ns + x) % 2 ^ 64
  unfolding record_latency
  total_after x s = ground arith

  -- Each latency that is recorded extends the history by one.
  pub update-IsSummary :
      (h : List ℕ) (x : ℕ) (c : Client D)
      → IsSummary h c
      → IsSummary (h ++ x ∷ []) (update_latency_stats F x c)
  unfolding update_latency_stats
  update-IsSummary h x c v = record {
    kept = ap (remember x) v.kept ∙ remember-recent x h;
    total = omega (arith, total_after x c.stats, v.total, sum-append h (x ∷ []));
    low =
        All-append _ h (x ∷ [])
          (All-map _ _
            (λ (y : ℕ) (p : c.stats.min_latency_ns ≤ y). omega (arith, min_after x c.stats)) h
            v.low)
          (omega (arith, min_after x c.stats), tt);
    high =
        All-append _ h (x ∷ [])
          (All-map _ _
            (λ (y : ℕ) (p : y ≤ c.stats.max_latency_ns). omega (arith, max_after x c.stats)) h
            v.high)
          (omega (arith, max_after x c.stats), tt);
    low_attained =
        attained x _ h (min_choice x c.stats.min_latency_ns (min_after x c.stats)) v.low_attained;
    high_attained =
        attained x _ h (max_choice x c.stats.max_latency_ns (max_after x c.stats)) v.high_attained;
  }

  -- The latencies of a run, recorded in order.
  pub update_all : List ℕ → Client D → Client D
  update_all [] c = c
  update_all (x ∷ xs) c = update_all xs (update_latency_stats F x c)

  update_all-IsSummary :
      (h xs : List ℕ) (c : Client D) → IsSummary h c → IsSummary (h ++ xs) (update_all xs c)
  unfolding update_all
  update_all-IsSummary h [] c v = rw (append-nil h) v
  update_all-IsSummary h (x ∷ xs) c v =
      subst (λ (l : List ℕ). IsSummary l (update_all xs (update_latency_stats F x c)))
        (append_assoc h (x ∷ []) xs)
        (update_all-IsSummary (h ++ x ∷ []) xs (update_latency_stats F x c)
          (update-IsSummary h x c v))

  -- After any run of measurements since a reset: the last 10000 of them are kept, in order; the
  -- total is their sum modulo 2^64; the minimum and the maximum bound all of them, and each is one
  -- of them, unless it is still the value of the reset.
  pub statistics_of_run :
      (now : ℕ) (xs : List ℕ) (c : Client D) → IsSummary xs (update_all xs (reset_stats F now c))
  unfolding reset_stats
  statistics_of_run now xs c = update_all-IsSummary [] xs (reset_stats F now c) (record {
    kept = refl;
    total = refl;
    low = tt;
    high = tt;
    low_attained = inl refl;
    high_attained = inl refl;
  })
