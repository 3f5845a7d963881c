-- ===== src/Programs/Options.antt =====
-- The loop over the command line that src/hft_tcp_client_test.cpp, src/hft_tcp_client_simple.cpp
-- and src/hft_latency_test_100k.cpp have in common, with the options of each.
use Prim.Native.String.{String}
use text.Mathlib.Text.{◌==◌}
use hft.Base.{ℕ, ◌%◌, ◌^◌, List, [], ◌∷◌, Option, none, some, if◌then◌else◌}
use hft.Programs.Numbers.{to_port, to_size}
use hft.Programs.Arguments.{codes}

-- An option that takes a value, with its assignment, which may throw; `--help`; or another word.
pub data Word (C : Type 0) : Type 0 where
  takes : (String → C → Option C) → Word C
  help_word other_word : Word C

pub data Read (C : Type 0) : Type 0 where
  configured : C → Read C
  usage_shown uncaught_exception : Read C

module _ {C : Type 0} where
  -- The arguments after the program's name. The last one has no value to take.
  unfoldable pub parse_options : (String → Word C) → List String → C → Read C
  parse_options word_of [] c = configured c
  parse_options word_of (arg ∷ []) c = elim (word_of arg) [
    | takes store ↦ configured c
    | help_word ↦ usage_shown
    | other_word ↦ configured c
  ]
  parse_options word_of (arg ∷ value ∷ rest) c = elim (word_of arg) [
    | takes store ↦ elim (store value c) [
      | none ↦ uncaught_exception
      | some c' ↦ parse_options word_of rest c'
    ]
    | help_word ↦ usage_shown
    | other_word ↦ parse_options word_of (value ∷ rest) c
  ]

  abbrev text_option : (String → C → C) → Word C
  text_option set = takes (λ value c. some (set value c))

  with_number : Option ℕ → (ℕ → C) → Option C
  with_number none set = none
  with_number (some n) set = some (set n)

  -- `static_cast<uint16_t>(std::stoi(…))` and `std::stoul(…)`
  abbrev port_option : (ℕ → C → C) → Word C
  unfolding with_number to_port
  port_option set = takes (λ value c. with_number (to_port (codes value)) (λ n. set n c))

  abbrev size_option : (ℕ → C → C) → Word C
  unfolding with_number to_size
  size_option set = takes (λ value c. with_number (to_size (codes value)) (λ n. set n c))

-- The local variables that `main` of src/hft_tcp_client_test.cpp begins with.
pub record ClientConfig : Type 0 where
  pub server_ip : String
  pub server_port : ℕ  -- uint16_t
  pub client_id : ℕ  -- uint32_t
  pub test_mode : String
  pub num_messages : ℕ  -- size_t
  pub message_interval_ms : ℕ  -- uint32_t, as the next two
  pub test_duration_seconds : ℕ
  pub messages_per_second : ℕ

abbrev pub client_defaults : ClientConfig
client_defaults = record {
  server_ip = "127.0.0.1";
  server_port = 8888;
  client_id = 1;
  test_mode = "interactive";
  num_messages = 1000;
  message_interval_ms = 1;
  test_duration_seconds = 60;
  messages_per_second = 100;
}

unfoldable pub client_option : String → Word ClientConfig
unfolding port_option size_option
client_option arg =
    if arg == "--ip"
    then text_option (λ value c. record c { server_ip = value })
    else if arg == "--port"
    then port_option (λ n c. record c { server_port = n })
    else if arg == "--client-id"
    then size_option (λ n c. record c { client_id = n % 2 ^ 32 })
    else if arg == "--mode"
    then text_option (λ value c. record c { test_mode = value })
    else if arg == "--messages"
    then size_option (λ n c. record c { num_messages = n })
    else if arg == "--interval"
    then size_option (λ n c. record c { message_interval_ms = n % 2 ^ 32 })
    else if arg == "--duration"
    then size_option (λ n c. record c { test_duration_seconds = n % 2 ^ 32 })
    else if arg == "--rate"
    then size_option (λ n c. record c { messages_per_second = n % 2 ^ 32 })
    else if arg == "--help"
    then help_word
    else other_word

-- Those of src/hft_tcp_client_simple.cpp.
pub record SimpleConfig : Type 0 where
  pub server_ip : String
  pub server_port : ℕ
  pub client_id : ℕ
  pub num_messages : ℕ
  pub message_interval_ms : ℕ

abbrev pub simple_defaults : SimpleConfig
simple_defaults = record {
  server_ip = "127.0.0.1";
  server_port = 8888;
  client_id = 1;
  num_messages = 10;
  message_interval_ms = 100;
}

unfoldable pub simple_option : String → Word SimpleConfig
unfolding port_option size_option
simple_option arg =
    if arg == "--ip"
    then text_option (λ value c. record c { server_ip = value })
    else if arg == "--port"
    then port_option (λ n c. record c { server_port = n })
    else if arg == "--client-id"
    then size_option (λ n c. record c { client_id = n % 2 ^ 32 })
    else if arg == "--messages"
    then size_option (λ n c. record c { num_messages = n })
    else if arg == "--interval"
    then size_option (λ n c. record c { message_interval_ms = n % 2 ^ 32 })
    else if arg == "--help"
    then help_word
    else other_word

-- Those of src/hft_latency_test_100k.cpp.
pub record LoadConfig : Type 0 where
  pub server_ip : String
  pub server_port : ℕ
  pub num_messages : ℕ

abbrev pub load_defaults : LoadConfig
load_defaults = record { server_ip = "127.0.0.1"; server_port = 8888; num_messages = 100000 }

unfoldable pub load_option : String → Word LoadConfig
unfolding port_option size_option
load_option arg =
    if arg == "--ip"
    then text_option (λ value c. record c { server_ip = value })
    else if arg == "--port"
    then port_option (λ n c. record c { server_port = n })
    else if arg == "--messages"
    then size_option (λ n c. record c { num_messages = n })
    else if arg == "--help"
    then help_word
    else other_word
