-- ===== src/Tests/Clients.antt =====
-- The programs of the two clients, at sample command lines, input lines and answers of the system.
use hft.Base.{ℕ, ◌≡◌, refl, true, List, [], ◌∷◌, some, arith, if◌then◌else◌}
use hft.Message.Types.{OrderSide}
use hft.Server.Descriptors.{count}
use hft.Client.State.{Client, new_client}
use hft.Client.Connect.{ConnectAnswers, connect}
use hft.SimpleClient.State.{SimpleClient, new_simple_client}
use hft.SimpleClient.Keeps.{open_fds}
use hft.SimpleClient.Receive.{received, nothing}
use hft.Programs.Numbers.{is_space}
use hft.Programs.Arguments.{codes}
use hft.Programs.Options.{
  configured, ClientConfig, client_defaults, client_option, simple_option, parse_options,
}
use hft.Programs.Decimal.{decimal}
use hft.Programs.ClientWords.{
  client_id, messages, Setting, mode, unknown, port, amount, words, IsWritten, configure,
  parse_options-words,
}
use hft.Programs.Commands.{Command, order, parse_command}
use hft.Programs.CommandText.{IsWritable, command_text, parse_command-text}
use hft.Programs.ClientTest.{
  Draws, Turn, Line, World, undefined, returned, beats, handled_client, client_main,
}
use hft.Programs.Trades.{comes_to_trade}
use hft.Programs.Modes.{IsQuietWorld, is_mode}
use hft.Programs.Endings.{IsFinished, client_main_ends}
use hft.Programs.SimpleClient.{simple_client_main}
use hft.Programs.SimpleClient as Simple
use hft.Programs.Descriptors.{simple_client_main_closes}
use hft.Tests.Samples.{client_floats}

abbrev sale : Command
sale = order (codes "AAPL") OrderSide.sell 100 150000

parse_command-text_example : parse_command (command_text sale) ≡ sale
unfolding IsWritable is_space
parse_command-text_example =
    parse_command-text sale ((refl, (refl, (refl, (refl, tt)))), tt, omega arith, omega arith)

abbrev joined : ConnectAnswers
joined = record {
  socket = some 6;
  address_ok = true;
  connect_ok = true;
  select_ok = true;
  no_error = true;
}

abbrev draws : Draws
draws = record { id = 1; now = 100; second_draw = 2; request_id = 3; request_now = 110 }

-- A heartbeat of the thread, and no more, before each line.
abbrev beaten : Turn client_floats
beaten = record { events = beats 9 50 ∷ []; draws = draws }

abbrev lines : List (Line client_floats)
lines =
    record { turn = beaten; text = codes "h" }
    ∷ record { turn = beaten; text = codes "o AAPL BUY ten 150000" }
    ∷ record { turn = beaten; text = codes "q" }
    ∷ record { turn = beaten; text = codes "o AAPL BUY 10 150000" }
    ∷ []

abbrev world : World client_floats
world = record {
  created_ns = 0;
  connect_answers = joined;
  at_start = [];
  lines = lines;
  reset_ns = 10;
  turns = λ i. beaten;
  start_ns = 10;
  timed_turns = [];
  at_end = [];
}

abbrev config : ClientConfig
config = record client_defaults { client_id = 5 }

world-IsQuietWorld : IsQuietWorld client_floats world
world-IsQuietWorld = record {
  at_start = tt;
  before_lines = ((tt, tt), ((tt, tt), ((tt, tt), ((tt, tt), tt))));
  at_end = tt;
}

-- An order before the end of the commands.
abbrev trading : World client_floats
trading = record world {
  lines =
      record { turn = beaten; text = codes "o AAPL BUY 10 150000" }
      ∷ record { turn = beaten; text = codes "q" }
      ∷ [];
}

trading-IsQuietWorld : IsQuietWorld client_floats trading
trading-IsQuietWorld = record {
  at_start = tt;
  before_lines = ((tt, tt), ((tt, tt), tt));
  at_end = tt;
}

comes_to_order : comes_to_trade client_floats trading config ≡ true
unfolding comes_to_trade parse_command
comes_to_order = refl

abbrev Ends : World client_floats → Type 0
Ends w =
    (u : Client ℕ) × (client_main client_floats ("--client-id" ∷ "5" ∷ []) w ≡ (
      if comes_to_trade client_floats w config
      then undefined
      else returned (if is_mode config.test_mode then 0 else 1) u))
    × IsFinished client_floats u

client_main_ends_example : Ends world × Ends trading
unfolding parse_options client_option handled_client connect new_client
client_main_ends_example = (
  client_main_ends client_floats ("--client-id" ∷ "5" ∷ []) world config refl refl
      world-IsQuietWorld,
  client_main_ends client_floats ("--client-id" ∷ "5" ∷ []) trading config refl refl
      trading-IsQuietWorld,
)

abbrev simple_turns : ℕ → Simple.Turn
simple_turns i = record {
  answers = received (1 ∷ 2 ∷ []) 200 (λ at. at) ∷ nothing ∷ [];
  id = i;
  now = 100;
  client_order_id = 4;
  request_id = 5;
  request_now = 110;
  bytes_sent = some 1064;
}

abbrev simple_ending : Simple.Ending ℕ
simple_ending = simple_client_main client_floats ("--messages" ∷ "2" ∷ []) 0 joined simple_turns []

abbrev simple_after : SimpleClient ℕ
simple_after = elim simple_ending [
  | Simple.helped ↦ new_simple_client client_floats 1 0
  | Simple.aborted ↦ new_simple_client client_floats 1 0
  | Simple.undefined ↦ new_simple_client client_floats 1 0
  | Simple.returned n u ↦ u
]

simple_client_main_closes_example : count 6 (open_fds simple_after.effects) ≡ 0
unfolding simple_client_main new_simple_client parse_options simple_option
simple_client_main_closes_example =
    simple_client_main_closes client_floats ("--messages" ∷ "2" ∷ []) 0 joined simple_turns [] 0
      simple_after refl 6

-- A client id of 2^32 + 5, which is kept as 5.
abbrev written : List Setting
written =
    port 9000 "9000"
    ∷ unknown "-v"
    ∷ mode "latency"
    ∷ amount client_id 4294967301 "4294967301"
    ∷ amount messages 2000 "2000"
    ∷ port 9001 "9001"
    ∷ []

written-IsWritten : IsWritten written
unfolding IsWritten decimal client_option
written-IsWritten =
    (refl, omega arith, (refl, (refl, omega arith, (refl, omega arith, (refl, omega arith, tt)))))

parse_options-words_example :
    parse_options client_option (words written) client_defaults
    ≡ configured (configure written client_defaults)
parse_options-words_example = parse_options-words written client_defaults written-IsWritten
