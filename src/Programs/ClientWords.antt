-- ===== src/Programs/ClientWords.antt =====
-- src/hft_tcp_client_test.cpp: settings written as a command line, and what the loop over it makes of
-- them.
use Prim.Native.String.{String}
use hft.Base.{ℕ, ◌%◌, ◌<◌, ◌^◌, ◌≡◌, refl, ap, ◌∙◌, List, [], ◌∷◌, some, arith}
use hft.Programs.Numbers.{to_port, to_size}
use hft.Programs.Decimal.{decimal, to_port-decimal, to_size-decimal}
use hft.Programs.Arguments.{codes}
use hft.Programs.Options.{ClientConfig, other_word, client_option, configured, parse_options}

-- The options that `std::stoul` reads.
pub data Amount : Type 0 where
  client_id messages interval duration rate : Amount

-- A setting; a number stands with its text.
pub data Setting : Type 0 where
  ip mode unknown : String → Setting
  port : ℕ → String → Setting
  amount : Amount → ℕ → String → Setting

abbrev flag : Amount → String
flag client_id = "--client-id"
flag messages = "--messages"
flag interval = "--interval"
flag duration = "--duration"
flag rate = "--rate"

-- All but the number of messages are of 32 bits.
abbrev pub set_amount : Amount → ℕ → ClientConfig → ClientConfig
set_amount client_id n c = record c { client_id = n % 2 ^ 32 }
set_amount messages n c = record c { num_messages = n }
set_amount interval n c = record c { message_interval_ms = n % 2 ^ 32 }
set_amount duration n c = record c { test_duration_seconds = n % 2 ^ 32 }
set_amount rate n c = record c { messages_per_second = n % 2 ^ 32 }

unfoldable pub words : List Setting → List String
words [] = []
words (ip text ∷ ss) = "--ip" ∷ text ∷ words ss
words (mode text ∷ ss) = "--mode" ∷ text ∷ words ss
words (unknown text ∷ ss) = text ∷ words ss
words (port n text ∷ ss) = "--port" ∷ text ∷ words ss
words (amount a n text ∷ ss) = flag a ∷ text ∷ words ss

-- The texts are decimal, the numbers fit what reads them, and an unknown word is no option.
unfoldable pub IsWritten : List Setting → Type 0
IsWritten [] = Unit
IsWritten (ip text ∷ ss) = IsWritten ss
IsWritten (mode text ∷ ss) = IsWritten ss
IsWritten (unknown text ∷ ss) = (client_option text ≡ other_word) × IsWritten ss
IsWritten (port n text ∷ ss) = (codes text ≡ decimal n) × (n < 2 ^ 16) × IsWritten ss
IsWritten (amount a n text ∷ ss) = (codes text ≡ decimal n) × (n < 2 ^ 64) × IsWritten ss

-- The settings in order: of two of one kind, the later one counts.
unfoldable pub configure : List Setting → ClientConfig → ClientConfig
configure [] c = c
configure (ip text ∷ ss) c = configure ss (record c { server_ip = text })
configure (mode text ∷ ss) c = configure ss (record c { test_mode = text })
configure (unknown text ∷ ss) c = configure ss c
configure (port n text ∷ ss) c = configure ss (record c { server_port = n })
configure (amount a n text ∷ ss) c = configure ss (set_amount a n c)

parse-unknown :
    (text : String) (rest : List String) (c : ClientConfig)
    → client_option text ≡ other_word
    → parse_options client_option (text ∷ rest) c ≡ parse_options client_option rest c
unfolding parse_options
parse-unknown text [] c e = ground (arith, e)
parse-unknown text (value ∷ rest) c e = ground (arith, e)

parse-port :
    (n : ℕ) (text : String) (rest : List String) (c : ClientConfig)
    → to_port (codes text) ≡ some n
    → parse_options client_option ("--port" ∷ text ∷ rest) c
      ≡ parse_options client_option rest (record c { server_port = n })
unfolding parse_options client_option
parse-port n text rest c e = ground (arith, e)

parse-amount :
    (a : Amount) (n : ℕ) (text : String) (rest : List String) (c : ClientConfig)
    → to_size (codes text) ≡ some n
    → parse_options client_option (flag a ∷ text ∷ rest) c
      ≡ parse_options client_option rest (set_amount a n c)
unfolding parse_options client_option
parse-amount client_id n text rest c e = ground (arith, e)
parse-amount messages n text rest c e = ground (arith, e)
parse-amount interval n text rest c e = ground (arith, e)
parse-amount duration n text rest c e = ground (arith, e)
parse-amount rate n text rest c e = ground (arith, e)

-- Settings that are written as a command line of the client test program, numbers in decimal below
-- 2^16 for a port and 2^64 for another, are read back: of two settings of one kind the later one
-- counts, a number other than that of the messages is kept modulo 2^32, and a word that is no
-- option is passed over.
pub parse_options-words :
    (ss : List Setting) (c : ClientConfig)
    → IsWritten ss
    → parse_options client_option (words ss) c ≡ configured (configure ss c)
unfolding parse_options client_option words configure IsWritten
parse_options-words [] c h = refl
parse_options-words (ip text ∷ ss) c h = parse_options-words ss (record c { server_ip = text }) h
parse_options-words (mode text ∷ ss) c h = parse_options-words ss (record c { test_mode = text }) h
parse_options-words (unknown text ∷ ss) c (e, h) =
    parse-unknown text (words ss) c e ∙ parse_options-words ss c h
parse_options-words (port n text ∷ ss) c (e, small, h) =
    parse-port n text (words ss) c (ap to_port e ∙ to_port-decimal n small)
    ∙ parse_options-words ss (record c { server_port = n }) h
parse_options-words (amount a n text ∷ ss) c (e, small, h) =
    parse-amount a n text (words ss) c (ap to_size e ∙ to_size-decimal n small)
    ∙ parse_options-words ss (set_amount a n c) h
