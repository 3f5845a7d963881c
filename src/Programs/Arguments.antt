-- ===== src/Programs/Arguments.antt =====
-- src/main.cpp: the loop over the command line.
use Prim.Native.Char.{code}
use Prim.Native.String.{String}
use text.Mathlib.Text.{◌==◌}
use hft.Base.{ℕ, List, [], ◌∷◌, none, some, if◌then◌else◌}
use hft.Programs.Numbers.{to_port, to_size}

abbrev pub codes : String → List ℕ
codes String.[] = []
codes (String.◌∷◌ c s) = code c ∷ codes s

pub record Config : Type 0 where
  pub server_ip : String
  pub server_port : ℕ  -- uint16_t
  pub thread_count : ℕ  -- size_t

abbrev pub default_config : Config
default_config = record { server_ip = "127.0.0.1"; server_port = 8888; thread_count = 4 }

pub data Flag : Type 0 where
  ip_flag port_flag threads_flag help_flag other_flag : Flag

unfoldable pub flag_of : String → Flag
flag_of arg =
    if arg == "--ip"
    then ip_flag
    else if arg == "--port"
    then port_flag
    else if arg == "--threads"
    then threads_flag
    else if arg == "--help"
    then help_flag
    else other_flag

-- The configuration, the usage, or an exception that nothing catches.
pub data Parsed : Type 0 where
  parsed : Config → Parsed
  usage uncaught : Parsed

-- The arguments after the program's name. An option that takes a value is passed over when it is
-- the last argument, as an unknown one is.
unfoldable pub parse_arguments : List String → Config → Parsed
unfolding flag_of to_port to_size
parse_arguments [] c = parsed c
parse_arguments (arg ∷ []) c = elim (flag_of arg) [
  | help_flag ↦ usage
  | ip_flag ↦ parsed c
  | port_flag ↦ parsed c
  | threads_flag ↦ parsed c
  | other_flag ↦ parsed c
]
parse_arguments (arg ∷ value ∷ rest) c = elim (flag_of arg) [
  | ip_flag ↦ parse_arguments rest (record c { server_ip = value })
  | port_flag ↦ elim (to_port (codes value)) [
    | none ↦ uncaught
    | some n ↦ parse_arguments rest (record c { server_port = n })
  ]
  | threads_flag ↦ elim (to_size (codes value)) [
    | none ↦ uncaught
    | some n ↦ parse_arguments rest (record c { thread_count = n })
  ]
  | help_flag ↦ usage
  | other_flag ↦ parse_arguments (value ∷ rest) c
]
