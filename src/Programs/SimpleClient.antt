-- ===== src/Programs/SimpleClient.antt =====
-- src/hft_tcp_client_simple.cpp: `main`. What the clocks, the random generator and the system give is
-- an argument; the receive thread takes its answers between the statements of `main`.
use Prim.Native.String.{String}
use hft.Base.{ℕ, zero, suc, ◌+◌, ◌%◌, ◌^◌, Bool, true, false, List, Option, none, some}
use hft.Message.Types.{OrderSide}
use hft.Client.State.{Floats}
use hft.Client.Connect.{ConnectAnswers}
use hft.SimpleClient.State.{SimpleClient, new_simple_client}
use hft.SimpleClient.Link.{connect, disconnect}
use hft.SimpleClient.Send.{create_test_order, send_order}
use hft.SimpleClient.Receive.{RecvAnswer, waiting, left, fault, receive_messages}
use hft.Programs.Arguments.{codes}
use hft.Programs.Options.{
  SimpleConfig, simple_defaults, simple_option, configured, usage_shown, uncaught_exception,
  parse_options,
}

-- A turn of the loop: what the receive thread gets before it, and what the order is made of.
pub record Turn : Type 0 where
  pub answers : List RecvAnswer
  pub id : ℕ
  pub now : ℕ
  pub client_order_id : ℕ
  pub request_id : ℕ
  pub request_now : ℕ
  pub bytes_sent : Option ℕ  -- the result of `send`

-- The client, and whether the receive thread is in its loop.
pub record Session (D : Type 0) : Type 0 where
  pub client : SimpleClient D
  pub receiving : Bool

pub data Ending (D : Type 0) : Type 0 where
  helped aborted undefined : Ending D
  returned : ℕ → SimpleClient D → Ending D

module _ {D : Type 0} (F : Floats D) where
  unfoldable pub receive_some : List RecvAnswer → Session D → Option (Session D)
  unfolding receive_messages
  receive_some answers s = elim s.receiving [
    | false ↦ some s
    | true ↦ elim (receive_messages F answers s.client) [
      | waiting c ↦ some (record { client = c; receiving = true })
      | left c ↦ some (record { client = c; receiving = false })
      | fault ↦ none
    ]
  ]

  -- The order of the turn `i`. The result of `send_order` only chooses what is written.
  unfoldable pub send_turn : ℕ → Turn → Session D → Session D
  unfolding create_test_order send_order
  send_turn i x s = record s {
    client =
        (send_order x.request_id x.request_now
          (create_test_order x.id x.now x.client_order_id (codes "AAPL") OrderSide.buy 100
            ((150000 + i) % 2 ^ 64))
          x.bytes_sent s.client).0;
  }

  -- `count` turns from the turn `i` on. The pause after a turn shows only in what is received.
  unfoldable pub send_turns : ℕ → ℕ → (ℕ → Turn) → Session D → Option (Session D)
  unfolding receive_some send_turn
  send_turns zero i turns s = some s
  send_turns (suc count) i turns s = elim (receive_some (turns i).answers s) [
    | none ↦ none
    | some s' ↦ send_turns count (suc i) turns (send_turn i (turns i) s')
  ]

  -- From the constructor to the destructor, which disconnects; `last` is received in the last pause.
  unfoldable pub simple_client :
      SimpleConfig → ℕ → ConnectAnswers → (ℕ → Turn) → List RecvAnswer → Ending D
  unfolding connect disconnect new_simple_client send_turns
  simple_client config now a turns last =
      let (c, ok) = connect a (new_simple_client F config.client_id now) in
      elim ok [
        | false ↦ returned 1 (disconnect c)
        | true ↦
            elim (send_turns config.num_messages 0 turns
              (record { client = c; receiving = true })) [
                | none ↦ undefined
                | some s ↦ elim (receive_some last s) [
                  | none ↦ undefined
                  | some s' ↦ returned 0 (disconnect (disconnect s'.client))
                ]
              ]
      ]

  -- `main`, with the arguments after the program's name.
  unfoldable pub simple_client_main :
      List String → ℕ → ConnectAnswers → (ℕ → Turn) → List RecvAnswer → Ending D
  unfolding simple_client
  simple_client_main args now a turns last =
      elim (parse_options simple_option args simple_defaults) [
        | usage_shown ↦ helped
        | uncaught_exception ↦ aborted
        | configured config ↦ simple_client config now a turns last
      ]
