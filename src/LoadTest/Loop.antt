-- ===== src/LoadTest/Loop.antt =====
-- src/hft_latency_test_100k.cpp: the receiving loop over all answers of `recv`.
use hft.Base.{
  ℕ, suc, ◌-◌, ◌/◌, ◌≡◌, Bool, true, inl, inr, List, [], ◌∷◌, ◌++◌, arith, length, subst,
  if◌then◌else◌, ltb, Bool-cases,
}
use hft.Message.Layout.{message_size}
use hft.LatencyClient.Matching.{response_times}
use hft.LoadTest.Responses.{
  Receiving, RecvAnswer, received, nothing, closed_by_server, failed, Outcome, waiting, finished,
  receive_loop, slept,
}
use hft.LoadTest.Matching.{
  IsCounted, IsReceived, IsReceived-append, IsReceived-nothing, IsReceived-past,
  response_loop-IsReceived, drop_past,
}

-- The times of the responses that the answers hold, in order.
unfoldable pub all_times : List RecvAnswer → List ℕ
all_times [] = []
all_times (received n clock ∷ answers) =
    response_times clock 0 (n / message_size) ++ all_times answers
all_times (_ ∷ answers) = all_times answers

-- `recv` does not fail, and the server does not close the connection.
unfoldable pub IsOnline : List RecvAnswer → Type 0
IsOnline [] = Unit
IsOnline (received n clock ∷ answers) = IsOnline answers
IsOnline (nothing ∷ answers) = IsOnline answers
IsOnline (_ ∷ answers) = ⊥

abbrev pub goes_on : Receiving → Bool
goes_on r = ltb r.messages_received (length r.test.send_times)

-- The outer loop over answers after which it may go on: whether it has ended, and what it measured.
abbrev pub end_of : Receiving → Outcome
end_of r = if goes_on r then waiting r else finished r

slept-IsReceived : (rs : List ℕ) (r u : Receiving) → IsReceived rs r u → IsReceived rs r (slept u)
slept-IsReceived rs r u a = record {
  times = a.times;
  measured = a.measured;
  pending = a.pending;
  counted = record { same = a.counted.same; in_range = a.counted.in_range };
}

slept-IsCounted : (r : Receiving) → IsCounted r → IsCounted (slept r)
slept-IsCounted r c = record { same = c.same; in_range = c.in_range }

pub receive_loop-IsReceived :
    (answers : List RecvAnswer) (r : Receiving)
    → IsOnline answers
    → IsCounted r
    → (v : Receiving) × (receive_loop answers r ≡ end_of v) × IsReceived (all_times answers) r v
unfolding receive_loop IsOnline all_times
receive_loop-IsReceived [] r on c = (r, ground arith, IsReceived-nothing r c)
receive_loop-IsReceived (answer ∷ answers) r on c = elim (Bool-cases (goes_on r)) [
  | inr past ↦ (
    r,
    ground (arith, past),
    IsReceived-past (all_times (answer ∷ answers)) r c
        (drop_past r.test.send_times r.send_time_index (ground (arith, past, c.same))),
  )
  | inl before ↦ turn (λ u ok k. receive_loop-IsReceived answers u ok k) answer on before
]
  where
    Ends : List RecvAnswer → List ℕ → Receiving → Type 0
    Ends as' rs u = (v : Receiving) × (receive_loop as' u ≡ end_of v) × IsReceived rs u v

    turn :
        ((u : Receiving) → IsOnline answers → IsCounted u → Ends answers (all_times answers) u)
        → (a : RecvAnswer) → IsOnline (a ∷ answers)
        → goes_on r ≡ true
        → Ends (a ∷ answers) (all_times (a ∷ answers)) r
    turn again (received n clock) ok before =
        let (u, run, one) = response_loop-IsReceived (suc n) clock n 0 r (omega arith) c in
        let (v, runs, others) = again (slept u) ok (slept-IsCounted u one.counted) in
        let same : n - 0 ≡ n = omega arith in
        let rs = response_times clock 0 (n / message_size) in
        let all =
          subst (λ (k : ℕ). IsReceived (response_times clock 0 (k / message_size)) r u) same one in
        (
          v,
          ground (arith, before, run, runs),
          IsReceived-append rs (all_times answers) r (slept u) v (slept-IsReceived rs r u all)
              others,
        )
    turn again nothing ok before =
        let (v, runs, others) = again (slept r) ok (slept-IsCounted r c) in
        (
          v,
          ground (arith, before, runs),
          IsReceived-append [] (all_times answers) r (slept r) v
              (slept-IsReceived [] r r (IsReceived-nothing r c)) others,
        )
    turn again closed_by_server ok before = absurd ok
    turn again failed ok before = absurd ok
