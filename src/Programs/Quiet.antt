-- ===== src/Programs/Quiet.antt =====
-- src/hft_tcp_client_test.cpp: events of the client test program that cannot fault, and its commands.
use hft.Base.{◌≡◌, refl, sym, ◌∙◌, inl, inr, false, List, [], ◌∷◌, some, All, arith, Option-cases}
use hft.Client.State.{Client, Floats}
use hft.Client.Receive.{received, nothing, server_closed, failed, receive_turn}
use hft.Client.Threads.{epoll_turn}
use hft.Programs.Commands.{parse_command}
use hft.Programs.ClientTest.{
  Event, sends, receives, beats, opens_epoll, polls, closes_epoll, signalled, happen, happen_all,
  Line, run_commands,
}
use hft.Programs.Trades.{trades, line_result}

module _ {D : Type 0} (F : Floats D) where
  -- An event that cannot fault: no message is received.
  abbrev pub IsQuiet : Event F → Type 0
  IsQuiet (receives (received bytes now clock)) = ⊥
  IsQuiet (polls (x ∷ xs)) = ⊥
  IsQuiet _ = Unit

  happen-IsQuiet :
      (e : Event F) (c : Client D) → IsQuiet e → (d : Client D) × (happen F e c ≡ some d)
  unfolding happen receive_turn epoll_turn
  happen-IsQuiet (receives (received bytes now clock)) c q = absurd q
  happen-IsQuiet (polls (x ∷ xs)) c q = absurd q
  happen-IsQuiet (receives nothing) c q = elim (Option-cases (receive_turn F nothing c)) [
    | inl lost ↦ absurd (ground (arith, lost))
    | inr there ↦ there
  ]
  happen-IsQuiet (receives (server_closed reconnects)) c q =
      elim (Option-cases (receive_turn F (server_closed reconnects) c)) [
        | inl lost ↦ absurd (ground (arith, lost))
        | inr there ↦ there
      ]
  happen-IsQuiet (receives (failed reconnects)) c q =
      elim (Option-cases (receive_turn F (failed reconnects) c)) [
        | inl lost ↦ absurd (ground (arith, lost))
        | inr there ↦ there
      ]
  happen-IsQuiet (sends answers) c q = (_, refl)
  happen-IsQuiet (beats id now) c q = (_, refl)
  happen-IsQuiet (opens_epoll answer) c q = (_, refl)
  happen-IsQuiet (polls []) c q = (_, refl)
  happen-IsQuiet closes_epoll c q = (_, refl)
  happen-IsQuiet (signalled s) c q = (_, refl)

  pub happen_all-IsQuiet :
      (es : List (Event F)) (c : Client D)
      → All IsQuiet es
      → (d : Client D) × (happen_all F es c ≡ some d)
  unfolding happen_all
  happen_all-IsQuiet [] c q = (c, refl)
  happen_all-IsQuiet (e ∷ es) c (q, qs) =
      let (d, went) = happen-IsQuiet e c q in
      let (u, rest) = happen_all-IsQuiet es d qs in (u, ground (arith, went, rest))

  pub run_commands-IsQuiet :
      (xs : List (Line F)) (c : Client D)
      → All (λ (x : Line F). All IsQuiet x.turn.events) xs
      → trades F xs ≡ false
      → (d : Client D) × (run_commands F xs c ≡ some d)
  unfolding run_commands
  run_commands-IsQuiet [] c q h = (c, refl)
  run_commands-IsQuiet (x ∷ xs) c (q, qs) h =
      let (c', went) = happen_all-IsQuiet x.turn.events c q in
      elim (line_result F x xs c c' went (parse_command x.text) refl) [
        | inl (no_trade, run) ↦ (c', run)
        | inr (inl (trade, run)) ↦ absurd (ground (arith, h, trade))
        | inr (inr (d, same, run)) ↦
            let (u, rest) = run_commands-IsQuiet xs d qs (sym same ∙ h) in (u, run ∙ rest)
      ]
