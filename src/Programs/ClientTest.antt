-- ===== src/Programs/ClientTest.antt =====
-- src/hft_tcp_client_test.cpp: `signal_handler` and `main`. What the clocks, the random generator,
-- the system and the standard input give is an argument, as is what the threads of the client and
-- the signal handler do between the statements of `main`. What is written to the terminal is not
-- modelled.
use Prim.Native.String.{String}
use text.Mathlib.Text.{◌==◌}
use hft.Base.{
  ℕ, zero, suc, ◌+◌, ◌*◌, ◌/◌, ◌%◌, ◌^◌, Bool, true, false, List, [], ◌∷◌, Option, none, some, ltb,
  if◌then◌else◌,
}
use hft.Base
use hft.Message.Types.{OrderSide}
use hft.Client.State.{
  Client, Floats, new_client, reset_stats, set_message_handler, set_order_handler,
  set_market_data_handler,
}
use hft.Client.Connect.{ConnectAnswers, connect, disconnect, close_epoll}
use hft.Client.Messages.{create_test_order, create_test_market_data}
use hft.Client.Send.{SendAnswer, send_order, send_market_data, send_heartbeat, drain_queue}
use hft.Client.Receive.{RecvAnswer, receive_turn}
use hft.Client.Threads.{ClientEvent, start, stop, heartbeat_turn, open_epoll, epoll_turn}
use hft.Programs.Server.{Signal, interrupt, terminate}
use hft.Programs.Arguments.{codes}
use hft.Programs.Options.{
  ClientConfig, client_defaults, client_option, configured, usage_shown, uncaught_exception,
  parse_options,
}
use hft.Programs.Commands.{quit, heartbeat, order, market_data, parse_command}

-- What the random generator and the clock give for one message that `main` has sent.
pub record Draws : Type 0 where
  pub id : ℕ
  pub now : ℕ
  pub second_draw : ℕ  -- the client's identifier of an order, the volume of market data
  pub request_id : ℕ
  pub request_now : ℕ

module _ {D : Type 0} where
  -- `g_client` is set before the handler is.
  unfoldable pub signal_handler : Signal → Client D → Client D
  unfolding stop disconnect
  signal_handler interrupt c = disconnect (stop c)
  signal_handler terminate c = c

module _ {D : Type 0} (F : Floats D) where
  -- A turn of a thread of the client, or a signal.
  pub data Event : Type 0 where
    sends : List SendAnswer → Event
    receives : RecvAnswer F → Event
    beats : ℕ → ℕ → Event
    opens_epoll : Option ℕ → Event
    polls : List ClientEvent → Event
    closes_epoll : Event
    signalled : Signal → Event

  unfoldable pub happen : Event → Client D → Option (Client D)
  unfolding signal_handler
  happen (sends answers) c = some (drain_queue answers c)
  happen (receives answer) c = receive_turn F answer c
  happen (beats id now) c = some (heartbeat_turn id now c)
  happen (opens_epoll answer) c = some (open_epoll answer c).0
  happen (polls xs) c = epoll_turn F xs c
  happen closes_epoll c = some (close_epoll c)
  happen (signalled s) c = some (signal_handler s c)

  unfoldable pub happen_all : List Event → Client D → Option (Client D)
  unfolding happen
  happen_all [] c = some c
  happen_all (e ∷ es) c = elim (happen e c) [ none ↦ none | some c' ↦ happen_all es c' ]

  -- One turn of a loop of `main`, with what happens before it.
  pub record Turn : Type 0 where
    pub events : List Event
    pub draws : Draws

  -- A line of the standard input.
  pub record Line : Type 0 where
    pub turn : Turn
    pub text : List ℕ

  -- `create_test_order` and `send_order`, whose result only chooses what is written.
  unfoldable pub place_order : Draws → List ℕ → OrderSide → ℕ → ℕ → Client D → Option (Client D)
  unfolding create_test_order send_order
  place_order d symbol side quantity price c =
      elim (send_order d.request_id d.request_now
        (create_test_order d.id d.now d.second_draw symbol side quantity price) c) [
          | none ↦ none
          | some (c', ok) ↦ some c'
        ]

  unfoldable pub place_market_data : Draws → List ℕ → ℕ → ℕ → Client D → Option (Client D)
  unfolding create_test_market_data send_market_data
  place_market_data d symbol bid_price ask_price c =
      elim (send_market_data d.request_id d.request_now
        (create_test_market_data d.id d.now d.second_draw symbol bid_price 100 ask_price 100) c) [
          | none ↦ none
          | some (c', ok) ↦ some c'
        ]

  -- The loop of the interactive mode over the lines that are left.
  unfoldable pub run_commands : List Line → Client D → Option (Client D)
  unfolding happen_all place_order place_market_data send_heartbeat
  run_commands [] c = some c
  run_commands (x ∷ xs) c = elim (happen_all x.turn.events c) [
    | none ↦ none
    | some c' ↦ elim (parse_command x.text) [
      | quit ↦ some c'
      | heartbeat ↦
          run_commands xs (send_heartbeat x.turn.draws.request_id x.turn.draws.request_now c').0
      | order symbol side quantity price ↦
          elim (place_order x.turn.draws symbol side quantity price c') [
            | none ↦ none
            | some c'' ↦ run_commands xs c''
          ]
      | market_data symbol bid_price ask_price ↦
          elim (place_market_data x.turn.draws symbol bid_price ask_price c') [
            | none ↦ none
            | some c'' ↦ run_commands xs c''
          ]
      | _ ↦ run_commands xs c'
    ]
  ]

  -- The order of the turn `i` of a test.
  unfoldable pub order_turn : ℕ → Turn → Client D → Option (Client D)
  unfolding happen_all place_order
  order_turn i x c = elim (happen_all x.events c) [
    | none ↦ none
    | some c' ↦ place_order x.draws (codes "AAPL") OrderSide.buy 100 ((150000 + i) % 2 ^ 64) c'
  ]

  -- `count` turns from the turn `i` on. The pause after a turn shows only in what happens.
  unfoldable pub order_turns : ℕ → ℕ → (ℕ → Turn) → Client D → Option (Client D)
  unfolding order_turn
  order_turns zero i turns c = some c
  order_turns (suc count) i turns c = elim (order_turn i (turns i) c) [
    | none ↦ none
    | some c' ↦ order_turns count (suc i) turns c'
  ]

  -- A turn is taken while the clock, read before it, has not come to the end.
  unfoldable pub turns_until : ℕ → ℕ → List (ℕ × Turn) → Client D → Option (Client D)
  unfolding order_turn
  turns_until end_ns i [] c = some c
  turns_until end_ns i ((clock, x) ∷ xs) c = elim (ltb clock end_ns) [
    | false ↦ some c
    | true ↦ elim (order_turn i x c) [ none ↦ none | some c' ↦ turns_until end_ns (suc i) xs c' ]
  ]

  -- What the surroundings of the program give to a run of it.
  pub record World : Type 0 where
    pub created_ns : ℕ
    pub connect_answers : ConnectAnswers
    pub at_start : List Event  -- in the pause after `start`
    pub lines : List Line
    pub reset_ns : ℕ
    pub turns : ℕ → Turn
    pub start_ns : ℕ
    pub timed_turns : List (ℕ × Turn)
    pub at_end : List Event  -- in the pause after a test

  -- A mode that ends, one whose behaviour C++ leaves undefined, or a mode that is none of the four.
  pub data ModeResult : Type 0 where
    done : Client D → ModeResult
    mode_undefined unknown_mode : ModeResult

  unfoldable pub ended : Option (Client D) → ModeResult
  ended none = mode_undefined
  ended (some c) = done c

  -- The pause after a test.
  unfoldable pub rested : List Event → Option (Client D) → Option (Client D)
  unfolding happen_all
  rested events none = none
  rested events (some c) = happen_all events c

  -- The chain of modes. At the rate 0 the interval is a division by 0.
  unfoldable pub run_mode : World → ClientConfig → Client D → ModeResult
  unfolding run_commands order_turns turns_until ended rested
  run_mode w config c =
      let reset = reset_stats F w.reset_ns c in
      if config.test_mode == "interactive"
      then ended (run_commands w.lines c)
      else if config.test_mode == "latency"
      then ended (rested w.at_end (order_turns config.num_messages 0 w.turns reset))
      else if config.test_mode == "burst"
      then ended (rested w.at_end (order_turns config.num_messages 0 w.turns reset))
      else if config.test_mode == "sustained"
      then (if Base.◌==◌ config.messages_per_second 0
          then mode_undefined
          else ended (
              rested w.at_end (
                turns_until (w.start_ns + config.test_duration_seconds * 1000000000) 0 w.timed_turns
                  reset)))
      else unknown_mode

  -- How the program ends: with `--help`, by an exception, or with a code and the client after its
  -- destructor. `undefined` is not an ending of its own: from the first write past a payload, or
  -- the division by 0, on, C++ says nothing of what follows.
  pub data Ending : Type 0 where
    helped aborted undefined : Ending
    returned : ℕ → Client D → Ending

  -- `stop` and `disconnect`, by `main` and by the destructor.
  abbrev pub finish : Client D → Client D
  finish c = disconnect (stop c)

  -- The client before the chain of modes, when it has connected.
  unfoldable pub started_client : World → Client D → Option (Client D)
  unfolding start happen_all
  started_client w c = happen_all w.at_start (start c)

  unfoldable pub handled_client : World → ClientConfig → Client D
  unfolding set_message_handler set_order_handler set_market_data_handler new_client
  handled_client w config = set_market_data_handler true (
      set_order_handler true
        (set_message_handler true (new_client F config.client_id w.created_ns)))

  unfoldable pub test_client : World → ClientConfig → Ending
  unfolding handled_client started_client run_mode connect
  test_client w config =
      let (c, ok) = connect w.connect_answers (handled_client w config) in
      elim ok [
        | false ↦ returned 1 (finish c)
        | true ↦ elim (started_client w c) [
          | none ↦ undefined
          | some c' ↦ elim (run_mode w config c') [
            | mode_undefined ↦ undefined
            | unknown_mode ↦ returned 1 (finish c')
            | done d ↦ returned 0 (finish (finish d))
          ]
        ]
      ]

  -- `main`, with the arguments after the program's name.
  unfoldable pub client_main : List String → World → Ending
  unfolding test_client
  client_main args w = elim (parse_options client_option args client_defaults) [
    | usage_shown ↦ helped
    | uncaught_exception ↦ aborted
    | configured config ↦ test_client w config
  ]
