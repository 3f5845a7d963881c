-- ===== src/Programs/CommandLine.antt =====
-- src/main.cpp: settings written as a command line, and what the loop over it makes of them.
use Prim.Native.String.{String}
use hft.Base.{ℕ, ◌<◌, ◌^◌, ◌≡◌, refl, ap, ◌∙◌, List, [], ◌∷◌, some, arith}
use hft.Programs.Numbers.{to_port, to_size}
use hft.Programs.Decimal.{decimal, to_port-decimal, to_size-decimal}
use hft.Programs.Arguments.{Config, codes, other_flag, flag_of, parsed, parse_arguments}

-- A setting; a number stands with its text.
pub data Setting : Type 0 where
  ip : String → Setting
  port threads : ℕ → String → Setting
  unknown : String → Setting

unfoldable pub words : List Setting → List String
words [] = []
words (ip text ∷ ss) = "--ip" ∷ text ∷ words ss
words (port n text ∷ ss) = "--port" ∷ text ∷ words ss
words (threads n text ∷ ss) = "--threads" ∷ text ∷ words ss
words (unknown text ∷ ss) = text ∷ words ss

-- The texts are decimal, the numbers fit, and an unknown word is no option.
unfoldable pub IsWritten : List Setting → Type 0
IsWritten [] = Unit
IsWritten (ip text ∷ ss) = IsWritten ss
IsWritten (port n text ∷ ss) = (codes text ≡ decimal n) × (n < 2 ^ 16) × IsWritten ss
IsWritten (threads n text ∷ ss) = (codes text ≡ decimal n) × (n < 2 ^ 64) × IsWritten ss
IsWritten (unknown text ∷ ss) = (flag_of text ≡ other_flag) × IsWritten ss

-- The settings in order: of two of one kind, the later one counts.
unfoldable pub configure : List Setting → Config → Config
configure [] c = c
configure (ip text ∷ ss) c = configure ss (record c { server_ip = text })
configure (port n text ∷ ss) c = configure ss (record c { server_port = n })
configure (threads n text ∷ ss) c = configure ss (record c { thread_count = n })
configure (unknown text ∷ ss) c = configure ss c

parse-unknown :
    (text : String) (rest : List String) (c : Config)
    → flag_of text ≡ other_flag
    → parse_arguments (text ∷ rest) c ≡ parse_arguments rest c
unfolding parse_arguments
parse-unknown text [] c e = ground (arith, e)
parse-unknown text (value ∷ rest) c e = ground (arith, e)

parse-port :
    (n : ℕ) (text : String) (rest : List String) (c : Config)
    → to_port (codes text) ≡ some n
    → parse_arguments ("--port" ∷ text ∷ rest) c
      ≡ parse_arguments rest (record c { server_port = n })
unfolding parse_arguments flag_of
parse-port n text rest c e = ground (arith, e)

parse-threads :
    (n : ℕ) (text : String) (rest : List String) (c : Config)
    → to_size (codes text) ≡ some n
    → parse_arguments ("--threads" ∷ text ∷ rest) c
      ≡ parse_arguments rest (record c { thread_count = n })
unfolding parse_arguments flag_of
parse-threads n text rest c e = ground (arith, e)

-- Settings that are written as a command line, numbers in decimal below 2^16 for a port and 2^64
-- for the threads, are read back: of two settings of one kind the later one counts, and a word
-- that is no option is passed over.
pub parse_arguments-words :
    (ss : List Setting) (c : Config)
    → IsWritten ss
    → parse_arguments (words ss) c ≡ parsed (configure ss c)
unfolding parse_arguments flag_of words configure IsWritten
parse_arguments-words [] c h = refl
parse_arguments-words (ip text ∷ ss) c h =
    parse_arguments-words ss (record c { server_ip = text }) h
parse_arguments-words (port n text ∷ ss) c (e, small, h) =
    parse-port n text (words ss) c (ap to_port e ∙ to_port-decimal n small)
    ∙ parse_arguments-words ss (record c { server_port = n }) h
parse_arguments-words (threads n text ∷ ss) c (e, small, h) =
    parse-threads n text (words ss) c (ap to_size e ∙ to_size-decimal n small)
    ∙ parse_arguments-words ss (record c { thread_count = n }) h
parse_arguments-words (unknown text ∷ ss) c (e, h) =
    parse-unknown text (words ss) c e ∙ parse_arguments-words ss c h
