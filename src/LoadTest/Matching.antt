-- ===== src/LoadTest/Matching.antt =====
-- src/hft_latency_test_100k.cpp: what `receive_responses` measures, over all that `recv` returns.
use hft.Base.{
  ℕ, zero, suc, ◌+◌, ◌-◌, ◌/◌, ◌≤◌, ◌<◌, ◌≡◌, refl, ap, sym, ◌∙◌, true, false, inl, inr, List, [],
  ◌∷◌, ◌++◌, some, arith, length, length-append, subst, drop, leb, ltb, get_elem?, append_assoc,
  append-nil, Bool-cases,
}
use hft.Message.Layout.{message_size}
use hft.Client.State.{sub64}
use hft.LatencyClient.Matching.{response_times, latencies}
use hft.LoadTest.Responses.{Receiving, take_response, response_loop}

drop-get_elem? :
    (l : List ℕ) (i : ℕ)
    → i < length l
    → (s : ℕ) × (get_elem? l i ≡ some s) × (drop i l ≡ s ∷ drop (suc i) l)
drop-get_elem? [] i h = absurd (omega arith)
drop-get_elem? (x ∷ l) zero h = (x, refl, refl)
drop-get_elem? (x ∷ l) (suc i) h = drop-get_elem? l i (omega arith)

pub drop_past : (l : List ℕ) (i : ℕ) → length l ≤ i → drop i l ≡ []
drop_past [] zero h = refl
drop_past [] (suc i) h = refl
drop_past (x ∷ l) zero h = absurd (omega arith)
drop_past (x ∷ l) (suc i) h = drop_past l i (omega arith)

-- The send times that no response has been matched with.
abbrev pub unmatched : Receiving → List ℕ
unmatched r = drop r.send_time_index r.test.send_times

-- The two counters agree and are in range.
pub record IsCounted (r : Receiving) : Type 0 where
  pub same : r.send_time_index ≡ r.messages_received
  pub in_range : r.messages_received ≤ length r.test.send_times

-- What responses at the times `rs` make of `r`.
pub record IsReceived (rs : List ℕ) (r r' : Receiving) : Type 0 where
  pub times : r'.test.send_times ≡ r.test.send_times
  pub measured :
      r'.test.latency_measurements ≡ r.test.latency_measurements ++ latencies rs (unmatched r)
  pub pending : unmatched r' ≡ drop (length rs) (unmatched r)
  pub counted : IsCounted r'

latencies_none : (rs : List ℕ) → latencies rs [] ≡ []
latencies_none [] = refl
latencies_none (r ∷ rs) = refl

drop_none : (n : ℕ) → drop {A = ℕ} n [] ≡ []
drop_none zero = refl
drop_none (suc n) = refl

pub IsReceived-nothing : (r : Receiving) → IsCounted r → IsReceived [] r r
IsReceived-nothing r c = record {
  times = refl;
  measured = sym (append-nil _);
  pending = refl;
  counted = c;
}

-- Responses for which no send time is left are not taken.
pub IsReceived-past :
    (rs : List ℕ) (r : Receiving) → IsCounted r → unmatched r ≡ [] → IsReceived rs r r
IsReceived-past rs r c e = record {
  times = refl;
  measured = sym (
      ap (λ (l : List ℕ). r.test.latency_measurements ++ latencies rs l) e
      ∙ ap (λ (l : List ℕ). r.test.latency_measurements ++ l) (latencies_none rs)
      ∙ append-nil _);
  pending = e ∙ sym (ap (λ (l : List ℕ). drop (length rs) l) e ∙ drop_none (length rs));
  counted = c;
}

take_response-IsReceived :
    (t : ℕ) (r : Receiving)
    → IsCounted r
    → r.messages_received < length r.test.send_times
    → (r' : Receiving) × (take_response t r ≡ some r') × IsReceived (t ∷ []) r r'
unfolding take_response
take_response-IsReceived t r c h =
    let (s, found, rest) =
      drop-get_elem? r.test.send_times r.send_time_index (ground (arith, c.same, h)) in
    (
      record {
        test = record test { latency_measurements = test.latency_measurements ++ sub64 t s ∷ [] };
        messages_received = suc r.messages_received;
        send_time_index = suc r.send_time_index;
      },
      ground (arith, found),
      record {
        times = refl;
        measured =
            ap (λ (l : List ℕ). r.test.latency_measurements ++ latencies (t ∷ []) l) (sym rest);
        pending = sym (ap (drop 1) rest);
        counted = record { same = ap suc c.same; in_range = h };
      },
    )
  where
    open r use {test}

latencies-append :
    (rs rs' pending : List ℕ)
    → latencies (rs ++ rs') pending
      ≡ latencies rs pending ++ latencies rs' (drop (length rs) pending)
latencies-append [] rs' pending = refl
latencies-append (r ∷ rs) rs' [] =
    sym (ap (λ (l : List ℕ). latencies rs' l) (refl) ∙ latencies_none rs')
latencies-append (r ∷ rs) rs' (s ∷ pending) = ap (◌∷◌ (sub64 r s)) (latencies-append rs rs' pending)

drop_twice : (m n : ℕ) (l : List ℕ) → drop n (drop m l) ≡ drop (m + n) l
drop_twice zero n l = ap (λ (k : ℕ). drop k l) (omega arith)
drop_twice (suc m) n [] = drop_none n ∙ sym (drop_none (suc m + n))
drop_twice (suc m) n (x ∷ l) =
    drop_twice m n l
    ∙ ap (λ (k : ℕ). drop k (x ∷ l)) {x = suc (m + n)} {y = suc m + n} (omega arith)

pub IsReceived-append :
    (rs rs' : List ℕ) (r u v : Receiving)
    → IsReceived rs r u
    → IsReceived rs' u v
    → IsReceived (rs ++ rs') r v
IsReceived-append rs rs' r u v a b = record {
  times = b.times ∙ a.times;
  measured =
      b.measured
      ∙ ap (◌++◌ u.test.latency_measurements) (ap (latencies rs') a.pending)
      ∙ ap (λ (l : List ℕ). l ++ latencies rs' (drop (length rs) (unmatched r))) a.measured
      ∙ append_assoc r.test.latency_measurements (latencies rs (unmatched r))
          (latencies rs' (drop (length rs) (unmatched r)))
      ∙ ap (◌++◌ r.test.latency_measurements) (sym (latencies-append rs rs' (unmatched r)));
  pending =
      b.pending
      ∙ ap (drop (length rs')) a.pending
      ∙ drop_twice (length rs) (length rs') (unmatched r)
      ∙ ap (λ (n : ℕ). drop n (unmatched r)) (sym (length-append rs rs'));
  counted = b.counted;
}

pub response_loop-IsReceived :
    (fuel : ℕ) (clock : ℕ → ℕ) (n offset : ℕ) (r : Receiving)
    → n - offset < fuel
    → IsCounted r
    → (r' : Receiving) × (response_loop fuel clock n offset r ≡ some r')
      × IsReceived (response_times clock offset ((n - offset) / message_size)) r r'
unfolding response_loop
response_loop-IsReceived zero clock n offset r h c = absurd (omega arith)
response_loop-IsReceived (suc fuel) clock n offset r h c =
    elim (Bool-cases (leb (offset + message_size) n)) [
      | inr done ↦ (
        r,
        ground (arith, done),
        subst (λ (k : ℕ). IsReceived (response_times clock offset k) r r) (sym (nothing_left done))
            (IsReceived-nothing r c),
      )
      | inl more ↦ elim (Bool-cases (ltb r.send_time_index (length r.test.send_times))) [
        | inr past ↦ (
          r,
          ground (arith, more, past),
          IsReceived-past _ r c
              (drop_past r.test.send_times r.send_time_index (ground (arith, past))),
        )
        | inl before ↦
            let (u, run, one) =
              take_response-IsReceived (clock offset) r c (ground (arith, c.same, before)) in
            let (v, runs, others) =
              response_loop-IsReceived fuel clock n (offset + message_size) u
                (ground (arith, more, h)) one.counted in
            (
              v,
              ground (arith, more, before, run, runs),
              subst (λ (k : ℕ). IsReceived (response_times clock offset k) r v)
                  (sym (one_more more)) (IsReceived-append (clock offset ∷ []) _ r u v one others),
            )
      ]
    ]
  where
    one_more :
        leb (offset + message_size) n ≡ true
        → (n - offset) / message_size ≡ suc ((n - (offset + message_size)) / message_size)
    one_more more = ground arith

    nothing_left : leb (offset + message_size) n ≡ false → (n - offset) / message_size ≡ 0
    nothing_left done = ground arith
