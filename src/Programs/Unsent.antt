-- ===== src/Programs/Unsent.antt =====
-- src/latency_test_main.cpp: what the latency test program has sent when it returns.
use Prim.Native.String.{String}
use text.Mathlib.Text
use hft.Base.{
  tabulate, ℕ, ◌≡◌, ◌⊎◌, refl, subst, inl, inr, true, false, List, [], ◌∷◌, Option, none, some,
  arith, Bool, Bool-cases, Option-cases,
}
use hft.Client.Connect.{ConnectAnswers}
use hft.LatencyClient.State.{Tester, Floats, slept_ms, emit, new_tester}
use hft.LatencyClient.Link.{connect, disconnect}
use hft.LatencyClient.Unsent.{
  sendings, Unsent, disconnect-Unsent, connect-Unsent, run_latency_test-Unsent,
  run_burst_test-Unsent, run_sustained_test-Unsent, slept-Unsent,
}
use hft.Programs.Server.{Signal, interrupt, terminate}
use hft.Programs.LatencyArguments.{
  LatencyConfig, LatencyParsed, latency_defaults, configured, usage_shown, uncaught_exception,
  parse_latency_arguments,
}
use hft.Programs.LatencyTest.{
  Load, Tested, ended, done, test_undefined, unknown_type, returned, interrupt_test, run_test,
  test_server, latency_main,
}

module _ {D : Type 0} where
  interrupt_test-Unsent :
      (xs : List Signal) (t : Tester D) → Unsent t → Unsent (interrupt_test xs t)
  unfolding interrupt_test
  interrupt_test-Unsent [] t v = v
  interrupt_test-Unsent (interrupt ∷ xs) t v =
      interrupt_test-Unsent xs (disconnect t) (disconnect-Unsent t v)
  interrupt_test-Unsent (terminate ∷ xs) t v = interrupt_test-Unsent xs t v

  ended-done : (r : Option (Tester D)) (u : Tester D) → ended r ≡ done u → r ≡ some u
  ended-done none u e = absurd (cc e)
  ended-done (some t) u e = ground (arith, e)

  run_test-Unsent :
      (load : Load) (c : LatencyConfig) (t u : Tester D)
      → Unsent t
      → run_test load c t ≡ done u
      → Unsent u
  unfolding run_test
  run_test-Unsent load c t u v e = elim (Bool-cases (Text.◌==◌ c.test_type "latency")) [
    | inl latency ↦
        run_latency_test-Unsent c.message_interval_ms (tabulate c.num_messages load.turns) t u v
          (ended-done _ u (ground (arith, latency, e)))
    | inr not_latency ↦ elim (Bool-cases (Text.◌==◌ c.test_type "burst")) [
      | inl burst ↦
          run_burst_test-Unsent c.burst_interval_ms
            (tabulate c.num_bursts (λ k. tabulate c.burst_size (load.bursts k))) t u v
            (ended-done _ u (ground (arith, not_latency, burst, e)))
      | inr not_burst ↦ elim (Bool-cases (Text.◌==◌ c.test_type "sustained")) [
        | inl sustained ↦
            run_sustained_test-Unsent load.start_ns c.duration_seconds c.messages_per_second
              load.timed_turns t u v
              (ended-done _ u (ground (arith, not_latency, not_burst, sustained, e)))
        | inr unknown ↦ absurd (ground (arith, not_latency, not_burst, unknown, e))
      ]
    ]
  ]

  Tested-cases :
      (r : Tested D) → (r ≡ test_undefined) ⊎ (r ≡ unknown_type) ⊎ ((u : Tester D) × (r ≡ done u))
  Tested-cases (done u) = inr (inr (u, refl))
  Tested-cases test_undefined = inl refl
  Tested-cases unknown_type = inr (inl refl)

Parsed-cases :
    (r : LatencyParsed)
    → (r ≡ usage_shown) ⊎ (r ≡ uncaught_exception) ⊎ ((c : LatencyConfig) × (r ≡ configured c))
Parsed-cases (configured c) = inr (inr (c, refl))
Parsed-cases usage_shown = inl refl
Parsed-cases uncaught_exception = inr (inl refl)

module _ {D : Type 0} (F : Floats D) where
  new-Unsent : Unsent (new_tester F)
  unfolding new_tester sendings
  new-Unsent = refl

  rested-Unsent :
      (a : ConnectAnswers) (xs : List Signal) (t : Tester D)
      → connect a (new_tester F) ≡ some (t, true)
      → Unsent (interrupt_test xs (emit (slept_ms 100) t))
  rested-Unsent a xs t e =
      interrupt_test-Unsent xs (emit (slept_ms 100) t)
        (slept-Unsent 100 t (connect-Unsent a (new_tester F) t true new-Unsent e))

  test_server-Unsent :
      (a : ConnectAnswers) (xs : List Signal) (load : Load) (c : LatencyConfig) (n : ℕ)
      (u : Tester D)
      → test_server F a xs load c ≡ returned n u
      → Unsent u
  unfolding test_server
  test_server-Unsent a xs load c n u e = elim (Option-cases (connect a (new_tester F))) [
    | inl lost ↦ absurd (ground (arith, lost, e))
    | inr ((t, ok), linked) ↦ after ok t linked
  ]
    where
      after : (ok : Bool) (t : Tester D) → connect a (new_tester F) ≡ some (t, ok) → Unsent u
      after false t linked =
          subst Unsent {x = disconnect t} {y = u} (ground (arith, linked, e))
            (disconnect-Unsent t (connect-Unsent a (new_tester F) t false new-Unsent linked))
      after true t linked =
          let rested = interrupt_test xs (emit (slept_ms 100) t) in
          let v = rested-Unsent a xs t linked in
          elim (Tested-cases (run_test load c rested)) [
            | inl faulty ↦ absurd (ground (arith, linked, faulty, e))
            | inr (inl unknown) ↦
                subst Unsent {x = disconnect rested} {y = u} (ground (arith, linked, unknown, e))
                  (disconnect-Unsent rested v)
            | inr (inr (w, tested)) ↦
                subst Unsent {x = disconnect (disconnect w)} {y = u}
                  (ground (arith, linked, tested, e))
                  (disconnect-Unsent (disconnect w)
                    (disconnect-Unsent w (run_test-Unsent load c rested w v tested)))
          ]

  -- Whenever the latency test program returns with a code, its client has sent no message,
  -- whatever its arguments, the answers to `connect`, the signals before the test and the turns
  -- of the test are. The behaviour of a test that comes to a message is undefined, since it copies the
  -- message past the end of its payload: of such a run this says nothing.
  pub latency_main_sends_nothing :
      (args : List String) (a : ConnectAnswers) (xs : List Signal) (load : Load) (n : ℕ)
      (u : Tester D)
      → latency_main F args a xs load ≡ returned n u
      → sendings u.effects ≡ 0
  unfolding latency_main
  latency_main_sends_nothing args a xs load n u e =
      elim (Parsed-cases (parse_latency_arguments args latency_defaults)) [
        | inl given ↦ absurd (ground (arith, given, e))
        | inr (inl thrown) ↦ absurd (ground (arith, thrown, e))
        | inr (inr (c, given)) ↦ test_server-Unsent a xs load c n u (ground (arith, given, e))
      ]
