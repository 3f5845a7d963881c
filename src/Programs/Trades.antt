-- ===== src/Programs/Trades.antt =====
-- src/hft_tcp_client_test.cpp: the lines of the interactive mode up to an order or market data.
use text.Mathlib.Text
use hft.Base.{
  ℕ, ◌+◌, ◌*◌, ◌%◌, ◌^◌, ◌≡◌, ◌⊎◌, refl, sym, ◌∙◌, inl, inr, Bool, true, false, ◌||◌, List, [], ◌∷◌,
  none, some, arith, ltb, ◌==◌, Option-cases, if◌then◌else◌,
}
use hft.Message.Types.{OrderMessage, OrderSide, MarketDataMessage}
use hft.Client.State.{Client, Floats}
use hft.Client.Messages.{create_test_order, create_test_market_data}
use hft.Client.Send.{send_heartbeat}
use hft.Client.Requests.{send_order_overflows, send_market_data_overflows, symbol_of_lem}
use hft.Programs.Arguments.{codes}
use hft.Programs.Options.{ClientConfig}
use hft.Programs.Commands.{
  Command, empty_line, quit, heartbeat, stats, bad_order, bad_market_data, unknown, order,
  market_data, parse_command,
}
use hft.Programs.ClientTest.{
  Draws, happen_all, Turn, Line, place_order, place_market_data, run_commands, order_turn, World,
}

module _ {D : Type 0} (F : Floats D) where
  -- Whether a line before the end of the commands sends an order or market data.
  unfoldable pub trades : List (Line F) → Bool
  trades [] = false
  trades (x ∷ xs) = elim (parse_command x.text) [
    | quit ↦ false
    | order symbol side quantity price ↦ true
    | market_data symbol bid_price ask_price ↦ true
    | _ ↦ trades xs
  ]

  unfoldable pub starts_turn : ℕ → List (ℕ × Turn F) → Bool
  starts_turn end_ns [] = false
  starts_turn end_ns ((clock, x) ∷ xs) = ltb clock end_ns

  -- Whether the mode comes to an order or market data, or divides by 0.
  unfoldable pub comes_to_trade : World F → ClientConfig → Bool
  unfolding trades starts_turn
  comes_to_trade w config =
      if Text.◌==◌ config.test_mode "interactive"
      then trades w.lines
      else if Text.◌==◌ config.test_mode "latency" || Text.◌==◌ config.test_mode "burst"
      then ltb 0 config.num_messages
      else if Text.◌==◌ config.test_mode "sustained"
      then config.messages_per_second == 0
        || starts_turn (w.start_ns + config.test_duration_seconds * 1000000000) w.timed_turns
      else false

  place_order_fails :
      (d : Draws) (symbol : List ℕ) (side : OrderSide) (quantity price : ℕ) (c : Client D)
      → place_order F d symbol side quantity price c ≡ none
  unfolding place_order create_test_order
  place_order_fails d symbol side quantity price c = ground (
    arith,
    send_order_overflows d.request_id d.request_now test_order c refl (symbol_of_lem symbol).0,
  )
    where
      test_order : OrderMessage
      test_order = create_test_order d.id d.now d.second_draw symbol side quantity price

  place_market_data_fails :
      (d : Draws) (symbol : List ℕ) (bid_price ask_price : ℕ) (c : Client D)
      → place_market_data F d symbol bid_price ask_price c ≡ none
  unfolding place_market_data create_test_market_data
  place_market_data_fails d symbol bid_price ask_price c = ground (
    arith,
    send_market_data_overflows d.request_id d.request_now test_data c refl (symbol_of_lem symbol).0,
  )
    where
      test_data : MarketDataMessage
      test_data =
          create_test_market_data d.id d.now d.second_draw symbol bid_price 100 ask_price 100

  pub order_turn_fails : (i : ℕ) (x : Turn F) (c : Client D) → order_turn F i x c ≡ none
  unfolding order_turn
  order_turn_fails i x c = elim (Option-cases (happen_all F x.events c)) [
    | inl lost ↦ ground (arith, lost)
    | inr (c', went) ↦ ground (
      arith,
      went,
      place_order_fails x.draws (codes "AAPL") OrderSide.buy 100 ((150000 + i) % 2 ^ 64) c',
    )
  ]

  -- What a line does, when nothing fails before it: it ends the commands, it faults on an order or
  -- on market data, or the commands go on at some client.
  abbrev pub LineResult : Line F → List (Line F) → Client D → Client D → Type 0
  LineResult x xs c c' =
      ((trades (x ∷ xs) ≡ false) × (run_commands F (x ∷ xs) c ≡ some c'))
      ⊎ ((trades (x ∷ xs) ≡ true) × (run_commands F (x ∷ xs) c ≡ none))
      ⊎ ((d : Client D) × (trades (x ∷ xs) ≡ trades xs)
          × (run_commands F (x ∷ xs) c ≡ run_commands F xs d))

  pub line_result :
      (x : Line F) (xs : List (Line F)) (c c' : Client D)
      → happen_all F x.turn.events c ≡ some c'
      → (k : Command) → parse_command x.text ≡ k
      → LineResult x xs c c'
  unfolding run_commands trades
  line_result x xs c c' went quit e = inl (ground (arith, e), ground (arith, went, e))
  line_result x xs c c' went (order symbol side quantity price) e = inr (
      inl (
        ground (arith, e),
        ground (arith, went, e, place_order_fails x.turn.draws symbol side quantity price c'),
      ))
  line_result x xs c c' went (market_data symbol bid_price ask_price) e = inr (
      inl (
        ground (arith, e),
        ground (arith, went, e, place_market_data_fails x.turn.draws symbol bid_price ask_price c'),
      ))
  line_result x xs c c' went heartbeat e = inr (
      inr (
        (send_heartbeat x.turn.draws.request_id x.turn.draws.request_now c').0,
        ground (arith, e),
        ground (arith, went, e),
      ))
  line_result x xs c c' went empty_line e =
      inr (inr (c', ground (arith, e), ground (arith, went, e)))
  line_result x xs c c' went stats e = inr (inr (c', ground (arith, e), ground (arith, went, e)))
  line_result x xs c c' went bad_order e =
      inr (inr (c', ground (arith, e), ground (arith, went, e)))
  line_result x xs c c' went bad_market_data e =
      inr (inr (c', ground (arith, e), ground (arith, went, e)))
  line_result x xs c c' went unknown e = inr (inr (c', ground (arith, e), ground (arith, went, e)))

  pub run_commands-trades :
      (xs : List (Line F)) (c : Client D) → trades xs ≡ true → run_commands F xs c ≡ none
  unfolding run_commands trades
  run_commands-trades [] c h = absurd (cc h)
  run_commands-trades (x ∷ xs) c h = elim (Option-cases (happen_all F x.turn.events c)) [
    | inl lost ↦ ground (arith, lost)
    | inr (c', went) ↦ elim (line_result x xs c c' went (parse_command x.text) refl) [
      | inl (no_trade, run) ↦ absurd (ground (arith, h, no_trade))
      | inr (inl (trade, run)) ↦ run
      | inr (inr (d, same, run)) ↦ run ∙ run_commands-trades xs d (sym same ∙ h)
    ]
  ]
