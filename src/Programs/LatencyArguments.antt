-- ===== src/Programs/LatencyArguments.antt =====
-- src/latency_test_main.cpp: the loop over the command line.
use Prim.Native.String.{String}
use text.Mathlib.Text.{◌==◌}
use hft.Base.{ℕ, ◌%◌, ◌^◌, List, [], ◌∷◌, Option, none, some, if◌then◌else◌}
use hft.Programs.Numbers.{to_port, to_size}
use hft.Programs.Arguments.{codes}

pub record LatencyConfig : Type 0 where
  pub server_ip : String
  pub server_port : ℕ  -- uint16_t
  pub test_type : String
  pub num_messages : ℕ  -- size_t
  pub message_interval_ms : ℕ  -- uint32_t
  pub burst_size : ℕ  -- size_t
  pub num_bursts : ℕ  -- size_t
  pub burst_interval_ms : ℕ  -- uint32_t, as the next two
  pub duration_seconds : ℕ
  pub messages_per_second : ℕ

abbrev pub latency_defaults : LatencyConfig
latency_defaults = record {
  server_ip = "127.0.0.1";
  server_port = 8888;
  test_type = "latency";
  num_messages = 1000;
  message_interval_ms = 1;
  burst_size = 100;
  num_bursts = 10;
  burst_interval_ms = 100;
  duration_seconds = 60;
  messages_per_second = 1000;
}

-- The options that take a value.
pub data Field : Type 0 where
  ip_field port_field test_field messages_field interval_field burst_size_field : Field
  bursts_field burst_interval_field duration_field rate_field : Field

pub data Word : Type 0 where
  takes : Field → Word
  help_word other_word : Word

unfoldable pub word_of : String → Word
word_of arg =
    if arg == "--ip"
    then takes ip_field
    else if arg == "--port"
    then takes port_field
    else if arg == "--test"
    then takes test_field
    else if arg == "--messages"
    then takes messages_field
    else if arg == "--interval"
    then takes interval_field
    else if arg == "--burst-size"
    then takes burst_size_field
    else if arg == "--bursts"
    then takes bursts_field
    else if arg == "--burst-interval"
    then takes burst_interval_field
    else if arg == "--duration"
    then takes duration_field
    else if arg == "--rate"
    then takes rate_field
    else if arg == "--help"
    then help_word
    else other_word

-- A number of `std::stoul` in a field; `none` is an exception.
unfoldable with_size : Option ℕ → (ℕ → LatencyConfig) → Option LatencyConfig
with_size none set = none
with_size (some n) set = some (set n)

-- The assignment of one option. A `uint32_t` takes the number modulo 2^32.
unfoldable pub store : Field → String → LatencyConfig → Option LatencyConfig
unfolding with_size to_port to_size
store ip_field value c = some (record c { server_ip = value })
store port_field value c = with_size (to_port (codes value)) (λ n. record c { server_port = n })
store test_field value c = some (record c { test_type = value })
store messages_field value c =
    with_size (to_size (codes value)) (λ n. record c { num_messages = n })
store interval_field value c =
    with_size (to_size (codes value)) (λ n. record c { message_interval_ms = n % 2 ^ 32 })
store burst_size_field value c =
    with_size (to_size (codes value)) (λ n. record c { burst_size = n })
store bursts_field value c = with_size (to_size (codes value)) (λ n. record c { num_bursts = n })
store burst_interval_field value c =
    with_size (to_size (codes value)) (λ n. record c { burst_interval_ms = n % 2 ^ 32 })
store duration_field value c =
    with_size (to_size (codes value)) (λ n. record c { duration_seconds = n % 2 ^ 32 })
store rate_field value c =
    with_size (to_size (codes value)) (λ n. record c { messages_per_second = n % 2 ^ 32 })

pub data LatencyParsed : Type 0 where
  configured : LatencyConfig → LatencyParsed
  usage_shown uncaught_exception : LatencyParsed

-- The arguments after the program's name. The last one has no value to take.
unfoldable pub parse_latency_arguments : List String → LatencyConfig → LatencyParsed
unfolding word_of store
parse_latency_arguments [] c = configured c
parse_latency_arguments (arg ∷ []) c = elim (word_of arg) [
  | takes field ↦ configured c
  | help_word ↦ usage_shown
  | other_word ↦ configured c
]
parse_latency_arguments (arg ∷ value ∷ rest) c = elim (word_of arg) [
  | takes field ↦ elim (store field value c) [
    | none ↦ uncaught_exception
    | some c' ↦ parse_latency_arguments rest c'
  ]
  | help_word ↦ usage_shown
  | other_word ↦ parse_latency_arguments (value ∷ rest) c
]
