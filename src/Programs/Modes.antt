-- ===== src/Programs/Modes.antt =====
-- src/hft_tcp_client_test.cpp: how the chain of modes of the client test program ends.
use Prim.Native.String.{String}
use text.Mathlib.Text
use hft.Base.{
  ℕ, zero, suc, ◌+◌, ◌*◌, ◌≡◌, refl, inl, inr, Bool, true, false, ◌||◌, List, [], ◌∷◌, none, some,
  All, arith, ltb, ◌==◌, Bool-cases, if◌then◌else◌,
}
use hft.Client.State.{Client, Floats, reset_stats}
use hft.Programs.Options.{ClientConfig}
use hft.Programs.ClientTest.{
  Turn, Line, order_turns, turns_until, World, done, mode_undefined, unknown_mode, ended, rested,
  run_mode,
}
use hft.Programs.Trades.{trades, run_commands-trades, starts_turn, comes_to_trade, order_turn_fails}
use hft.Programs.Quiet.{IsQuiet, happen_all-IsQuiet, run_commands-IsQuiet}

-- The mode is one of the four.
unfoldable pub is_mode : String → Bool
is_mode mode =
    Text.◌==◌ mode "interactive"
    || (Text.◌==◌ mode "latency" || Text.◌==◌ mode "burst")
    || Text.◌==◌ mode "sustained"

module _ {D : Type 0} (F : Floats D) where
  order_turns_fail :
      (count i : ℕ) (turns : ℕ → Turn F) (c : Client D)
      → ltb 0 count ≡ true
      → order_turns F count i turns c ≡ none
  unfolding order_turns
  order_turns_fail zero i turns c h = absurd (ground (arith, h))
  order_turns_fail (suc count) i turns c h = ground (arith, order_turn_fails F i (turns i) c)

  turns_until_fails :
      (end_ns i : ℕ) (xs : List (ℕ × Turn F)) (c : Client D)
      → starts_turn F end_ns xs ≡ true
      → turns_until F end_ns i xs c ≡ none
  unfolding turns_until starts_turn
  turns_until_fails end_ns i [] c h = absurd (ground (arith, h))
  turns_until_fails end_ns i ((clock, x) ∷ xs) c h = ground (arith, h, order_turn_fails F i x c)

  no_order_turns :
      (count i : ℕ) (turns : ℕ → Turn F) (c : Client D)
      → ltb 0 count ≡ false
      → order_turns F count i turns c ≡ some c
  unfolding order_turns
  no_order_turns zero i turns c h = refl
  no_order_turns (suc count) i turns c h = absurd (ground (arith, h))

  no_turns_until :
      (end_ns i : ℕ) (xs : List (ℕ × Turn F)) (c : Client D)
      → starts_turn F end_ns xs ≡ false
      → turns_until F end_ns i xs c ≡ some c
  unfolding turns_until starts_turn
  no_turns_until end_ns i [] c h = refl
  no_turns_until end_ns i ((clock, x) ∷ xs) c h = ground (arith, h)

  -- In the pauses and before the lines no message is received.
  pub record IsQuietWorld (w : World F) : Type 0 where
    pub at_start : All (IsQuiet F) w.at_start
    pub before_lines : All (λ (x : Line F). All (IsQuiet F) x.turn.events) w.lines
    pub at_end : All (IsQuiet F) w.at_end

  -- How the chain of modes ends, when the mode is not reached by an exception.
  abbrev pub EndsAs : World F → ClientConfig → Client D → Type 0
  EndsAs w config c =
      (d : Client D) × (run_mode F w config c ≡ (
        if comes_to_trade F w config
        then mode_undefined
        else if is_mode config.test_mode
        then done d
        else unknown_mode))

  interactive-EndsAs :
      (w : World F) (config : ClientConfig) (c : Client D)
      → IsQuietWorld w
      → Text.◌==◌ config.test_mode "interactive" ≡ true
      → EndsAs w config c
  unfolding run_mode comes_to_trade is_mode ended
  interactive-EndsAs w config c quiet mode = elim (Bool-cases (trades F w.lines)) [
    | inl trade ↦ (c, ground (arith, mode, trade, run_commands-trades F w.lines c trade))
    | inr no_trade ↦
        let (d, run) = run_commands-IsQuiet F w.lines c quiet.before_lines no_trade in
        (d, ground (arith, mode, no_trade, run))
  ]

  orders-EndsAs :
      (w : World F) (config : ClientConfig) (c : Client D)
      → IsQuietWorld w
      → Text.◌==◌ config.test_mode "interactive" ≡ false
      → (Text.◌==◌ config.test_mode "latency" || Text.◌==◌ config.test_mode "burst") ≡ true
      → EndsAs w config c
  unfolding run_mode comes_to_trade is_mode ended rested
  orders-EndsAs w config c quiet other mode =
      let reset = reset_stats F w.reset_ns c in
      elim (Bool-cases (ltb 0 config.num_messages)) [
        | inl trade ↦ (
          c,
          ground (
            arith,
            other,
            mode,
            trade,
            order_turns_fail config.num_messages 0 w.turns reset trade,
          ),
        )
        | inr no_trade ↦
            let (d, run) = happen_all-IsQuiet F w.at_end reset quiet.at_end in
            (
              d,
              ground (
                arith,
                other,
                mode,
                no_trade,
                run,
                no_order_turns config.num_messages 0 w.turns reset no_trade,
              ),
            )
      ]

  sustained-EndsAs :
      (w : World F) (config : ClientConfig) (c : Client D)
      → IsQuietWorld w
      → Text.◌==◌ config.test_mode "interactive" ≡ false
      → (Text.◌==◌ config.test_mode "latency" || Text.◌==◌ config.test_mode "burst") ≡ false
      → Text.◌==◌ config.test_mode "sustained" ≡ true
      → EndsAs w config c
  unfolding run_mode comes_to_trade is_mode ended rested
  sustained-EndsAs w config c quiet other other' mode =
      let reset = reset_stats F w.reset_ns c in
      let end_ns = w.start_ns + config.test_duration_seconds * 1000000000 in
      elim (Bool-cases (config.messages_per_second == 0)) [
        | inl by_zero ↦ (c, ground (arith, other, other', mode, by_zero))
        | inr rate ↦ elim (Bool-cases (starts_turn F end_ns w.timed_turns)) [
          | inl trade ↦ (
            c,
            ground (
              arith,
              other,
              other',
              mode,
              rate,
              trade,
              turns_until_fails end_ns 0 w.timed_turns reset trade,
            ),
          )
          | inr no_trade ↦
              let (d, run) = happen_all-IsQuiet F w.at_end reset quiet.at_end in
              (
                d,
                ground (
                  arith,
                  other,
                  other',
                  mode,
                  rate,
                  no_trade,
                  run,
                  no_turns_until end_ns 0 w.timed_turns reset no_trade,
                ),
              )
        ]
      ]

  pub run_mode-EndsAs :
      (w : World F) (config : ClientConfig) (c : Client D) → IsQuietWorld w → EndsAs w config c
  unfolding run_mode comes_to_trade is_mode
  run_mode-EndsAs w config c quiet = elim (Bool-cases (Text.◌==◌ config.test_mode "interactive")) [
    | inl mode ↦ interactive-EndsAs w config c quiet mode
    | inr other ↦
        elim (Bool-cases
          (Text.◌==◌ config.test_mode "latency" || Text.◌==◌ config.test_mode "burst")) [
            | inl mode ↦ orders-EndsAs w config c quiet other mode
            | inr other' ↦ elim (Bool-cases (Text.◌==◌ config.test_mode "sustained")) [
              | inl mode ↦ sustained-EndsAs w config c quiet other other' mode
              | inr no_mode ↦ (c, ground (arith, other, other', no_mode))
            ]
          ]
  ]
