-- ===== src/Programs/Endings.antt =====
-- src/hft_tcp_client_test.cpp: how a run of the client test program ends.
use Prim.Native.String.{String}
use hft.Base.{◌≡◌, ◌∙◌, inl, inr, true, false, List, arith, Bool-cases, if◌then◌else◌}
use hft.Client.State.{Client, Floats, ConnectionState, is_disconnected_state, disconnected}
use hft.Client.Connect.{connect, disconnect, close_socket, close_epoll}
use hft.Client.Threads.{start, stop}
use hft.Programs.Options.{ClientConfig, client_defaults, client_option, configured, parse_options}
use hft.Programs.ClientTest.{
  World, undefined, returned, finish, started_client, handled_client, test_client, client_main,
}
use hft.Programs.Trades.{comes_to_trade}
use hft.Programs.Quiet.{happen_all-IsQuiet}
use hft.Programs.Modes.{IsQuietWorld, is_mode, run_mode-EndsAs}

module _ {D : Type 0} (F : Floats D) where
  -- The client is stopped and has no connection.
  pub record IsFinished (u : Client D) : Type 0 where
    pub stopped : u.running ≡ false
    pub unconnected : u.connection_state ≡ disconnected

  disconnect_state : (c : Client D) → (disconnect c).connection_state ≡ disconnected
  unfolding disconnect close_socket close_epoll
  disconnect_state c = elim (Bool-cases (is_disconnected_state c.connection_state)) [
    | inl gone ↦ ground (arith, gone, state_of c.connection_state gone)
    | inr there ↦ ground (arith, there)
  ]
    where
      state_of : (x : ConnectionState) → is_disconnected_state x ≡ true → x ≡ disconnected
      state_of x h = ground (arith, h)

  disconnect_running : (c : Client D) → (disconnect c).running ≡ c.running
  unfolding disconnect close_socket close_epoll
  disconnect_running c = ground arith

  stop_running : (c : Client D) → (stop c).running ≡ false
  unfolding stop
  stop_running c = ground arith

  finish-IsFinished : (c : Client D) → IsFinished (finish F c)
  finish-IsFinished c = record {
    stopped = disconnect_running (stop c) ∙ stop_running c;
    unconnected = disconnect_state (stop c);
  }

  -- When the options are read, the client connects, and no message is received in the pauses and
  -- before the lines: the behaviour of the client test program is undefined just when its mode
  -- comes to an order or to market data, which it copies past the end of the payload, or divides by
  -- 0 (a rate of 0 in the sustained mode). Otherwise it returns 0 in one of the four modes and 1 in
  -- another, with a client that is stopped and not connected.
  pub client_main_ends :
      (args : List String) (w : World F) (config : ClientConfig)
      → parse_options client_option args client_defaults ≡ configured config
      → (connect w.connect_answers (handled_client F w config)).1 ≡ true
      → IsQuietWorld F w
      → (u : Client D) × (client_main F args w ≡ (
          if comes_to_trade F w config
          then undefined
          else returned (if is_mode config.test_mode then 0 else 1) u))
        × IsFinished u
  unfolding client_main test_client started_client
  client_main_ends args w config read linked quiet =
      let c = (connect w.connect_answers (handled_client F w config)).0 in
      let (c', went) = happen_all-IsQuiet F w.at_start (start c) quiet.at_start in
      let (d, run) = run_mode-EndsAs F w config c' quiet in
      elim (Bool-cases (comes_to_trade F w config)) [
        | inl trade ↦
            (finish F d, ground (arith, read, linked, went, run, trade), finish-IsFinished d)
        | inr no_trade ↦ elim (Bool-cases (is_mode config.test_mode)) [
          | inl mode ↦ (
            finish F (finish F d),
            ground (arith, read, linked, went, run, no_trade, mode),
            finish-IsFinished (finish F d),
          )
          | inr no_mode ↦ (
            finish F c',
            ground (arith, read, linked, went, run, no_trade, no_mode),
            finish-IsFinished c',
          )
        ]
      ]
