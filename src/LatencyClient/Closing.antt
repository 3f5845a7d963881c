-- ===== src/LatencyClient/Closing.antt =====
-- How often `connect` and `disconnect` close a descriptor.
use hft.Base.{ℕ, suc, ◌+◌, ◌≡◌, ◌∙◌, Bool, List, [], ◌∷◌, some, arith, ◌==◌, if◌then◌else◌}
use hft.Client.Connect.{ConnectAnswers}
use hft.LatencyClient.State.{Tester, Effect, closed}
use hft.LatencyClient.Link.{
  connect, disconnect, start_receiver, join_receiver, close_socket, setup_socket_options,
  set_non_blocking,
}

-- How often a descriptor was closed.
unfoldable pub closings : ℕ → List Effect → ℕ
closings fd [] = 0
closings fd (closed x ∷ es) = (let rest = closings fd es in if x == fd then suc rest else rest)
closings fd (_ ∷ es) = closings fd es

module _ {D : Type 0} where
  closings-disconnect :
      (fd : ℕ) (u : Tester D)
      → u.socket_fd ≡ some fd
      → closings fd (disconnect u).effects ≡ suc (closings fd u.effects)
  unfolding disconnect join_receiver close_socket closings
  closings-disconnect fd u e = ground (arith, e)

  connect-closings :
      (a : ConnectAnswers) (fd : ℕ) (t u : Tester D) (done : Bool)
      → a.socket ≡ some fd
      → connect a t ≡ some (u, done)
      → (u.socket_fd ≡ some fd)
        × (suc (closings fd u.effects) ≡ closings fd t.effects + (if done then 1 else 2))
  unfolding connect start_receiver setup_socket_options set_non_blocking closings
  connect-closings a fd t u done e run = ground (arith, e, run)

  -- Where `socket` succeeds: a `connect` that succeeds, and the `disconnect` after it, close the
  -- new socket once. A `connect` that fails closes the socket and keeps its number, and the
  -- `disconnect` that follows, which the destructor calls, closes that number again.
  pub disconnect_after_connect :
      (a : ConnectAnswers) (fd : ℕ) (t u : Tester D) (done : Bool)
      → a.socket ≡ some fd
      → connect a t ≡ some (u, done)
      → closings fd (disconnect u).effects ≡ closings fd t.effects + (if done then 1 else 2)
  disconnect_after_connect a fd t u done e run =
      let (held, once) = connect-closings a fd t u done e run in
      closings-disconnect fd u held ∙ once
