-- ===== src/LatencyClient/Unsent.antt =====
-- src/latency_client.cpp: what the tests send before their behaviour is undefined.
use hft.Base.{
  ℕ, ◌+◌, ◌*◌, ◌/◌, suc, ◌≡◌, subst, inl, inr, List, [], ◌∷◌, some, arith, Bool, ◌==◌, Bool-cases,
  Option-cases,
}
use hft.Client.Connect.{ConnectAnswers}
use hft.LatencyClient.State.{Tester, Effect, sent, slept_ms, emit, reset_stats}
use hft.LatencyClient.Link.{
  connect, disconnect, start_receiver, join_receiver, close_socket, setup_socket_options,
  set_non_blocking,
}
use hft.LatencyClient.Run.{
  Turn, send_turns, pause, run_latency_test, send_bursts, run_burst_test, send_until,
  run_sustained_test,
}
use hft.LatencyClient.Load.{send_turns_overflows, send_turn_overflows}

-- How often something was sent.
unfoldable pub sendings : List Effect → ℕ
sendings [] = 0
sendings (sent fd bytes ∷ es) = suc (sendings es)
sendings (_ ∷ es) = sendings es

module _ {D : Type 0} where
  -- The client has sent nothing.
  abbrev pub Unsent : Tester D → Type 0
  Unsent t = sendings t.effects ≡ 0

  pub disconnect-Unsent : (t : Tester D) → Unsent t → Unsent (disconnect t)
  unfolding disconnect join_receiver close_socket sendings
  disconnect-Unsent t v = ground (arith, v)

  pub connect-Unsent :
      (a : ConnectAnswers) (t u : Tester D) (ok : Bool)
      → Unsent t
      → connect a t ≡ some (u, ok)
      → Unsent u
  unfolding connect start_receiver setup_socket_options set_non_blocking sendings
  connect-Unsent a t u ok v e = ground (arith, v, e)

  reset_stats-Unsent : (t : Tester D) → Unsent t → Unsent (reset_stats t)
  unfolding reset_stats
  reset_stats-Unsent t v = v

  pause-Unsent : (ms : ℕ) (t : Tester D) → Unsent t → Unsent (pause ms t)
  unfolding pause sendings
  pause-Unsent ms t v = ground (arith, v)

  send_turns-Unsent :
      (ms : ℕ) (xs : List Turn) (t u : Tester D) → Unsent t → send_turns ms xs t ≡ some u → Unsent u
  unfolding send_turns
  send_turns-Unsent ms [] t u v e = ground (arith, v, e)
  send_turns-Unsent ms (x ∷ xs) t u v e = absurd (cc (send_turns_overflows ms x xs t, e))

  send_bursts-Unsent :
      (ms : ℕ) (bursts : List (List Turn)) (t u : Tester D)
      → Unsent t
      → send_bursts ms bursts t ≡ some u
      → Unsent u
  unfolding send_bursts
  send_bursts-Unsent ms [] t u v e = ground (arith, v, e)
  send_bursts-Unsent ms (xs ∷ []) t u v e = send_turns-Unsent 0 xs t u v e
  send_bursts-Unsent ms (xs ∷ ys ∷ rest) t u v e = elim (Option-cases (send_turns 0 xs t)) [
    | inl lost ↦ absurd (ground (arith, lost, e))
    | inr (w, run) ↦
        send_bursts-Unsent ms (ys ∷ rest) (pause ms w) u
          (pause-Unsent ms w (send_turns-Unsent 0 xs t w v run)) (ground (arith, run, e))
  ]

  send_until-Unsent :
      (end_ns us : ℕ) (xs : List (ℕ × Turn)) (t u : Tester D)
      → Unsent t
      → send_until end_ns us xs t ≡ some u
      → Unsent u
  unfolding send_until
  send_until-Unsent end_ns us [] t u v e = ground (arith, v, e)
  send_until-Unsent end_ns us ((clock, x) ∷ xs) t u v e =
      ground (arith, v, e, send_turn_overflows x t)

  pub slept-Unsent : (ms : ℕ) (t : Tester D) → Unsent t → Unsent (emit (slept_ms ms) t)
  unfolding sendings
  slept-Unsent ms t v = v

  pub run_latency_test-Unsent :
      (ms : ℕ) (xs : List Turn) (t u : Tester D)
      → Unsent t
      → run_latency_test ms xs t ≡ some u
      → Unsent u
  unfolding run_latency_test
  run_latency_test-Unsent ms xs t u v e = elim (Bool-cases t.connected) [
    | inr off ↦ ground (arith, off, v, e)
    | inl on ↦ elim (Option-cases (send_turns ms xs (reset_stats t))) [
      | inl lost ↦ absurd (ground (arith, on, lost, e))
      | inr (w, run) ↦
          subst Unsent {x = emit (slept_ms 1000) w} {y = u} (ground (arith, on, run, e)) (
            slept-Unsent 1000 w
              (send_turns-Unsent ms xs (reset_stats t) w (reset_stats-Unsent t v) run))
    ]
  ]

  pub run_burst_test-Unsent :
      (ms : ℕ) (bursts : List (List Turn)) (t u : Tester D)
      → Unsent t
      → run_burst_test ms bursts t ≡ some u
      → Unsent u
  unfolding run_burst_test
  run_burst_test-Unsent ms bursts t u v e = elim (Bool-cases t.connected) [
    | inr off ↦ ground (arith, off, v, e)
    | inl on ↦ elim (Option-cases (send_bursts ms bursts (reset_stats t))) [
      | inl lost ↦ absurd (ground (arith, on, lost, e))
      | inr (w, run) ↦
          subst Unsent {x = emit (slept_ms 1000) w} {y = u} (ground (arith, on, run, e)) (
            slept-Unsent 1000 w
              (send_bursts-Unsent ms bursts (reset_stats t) w (reset_stats-Unsent t v) run))
    ]
  ]

  pub run_sustained_test-Unsent :
      (start_ns seconds rate : ℕ) (xs : List (ℕ × Turn)) (t u : Tester D)
      → Unsent t
      → run_sustained_test start_ns seconds rate xs t ≡ some u
      → Unsent u
  unfolding run_sustained_test
  run_sustained_test-Unsent start_ns seconds rate xs t u v e = elim (Bool-cases t.connected) [
    | inr off ↦ ground (arith, off, v, e)
    | inl on ↦ elim (Bool-cases (rate == 0)) [
      | inl no_rate ↦ absurd (ground (arith, on, no_rate, e))
      | inr some_rate ↦
          elim (Option-cases
            (send_until (start_ns + seconds * 1000000000) (1000000 / rate) xs (reset_stats t))) [
              | inl lost ↦ absurd (ground (arith, on, some_rate, lost, e))
              | inr (w, run) ↦
                  subst Unsent {x = emit (slept_ms 1000) w} {y = u}
                    (ground (arith, on, some_rate, run, e))
                    (slept-Unsent 1000 w (
                      send_until-Unsent (start_ns + seconds * 1000000000) (1000000 / rate) xs
                        (reset_stats t) w (reset_stats-Unsent t v) run))
            ]
    ]
  ]
