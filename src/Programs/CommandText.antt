-- ===== src/Programs/CommandText.antt =====
-- src/hft_tcp_client_test.cpp: commands written as lines, and what the interactive mode reads.
use hft.Base.{
  Option, ◌>>=◌, ap, sym, ◌∙◌, ℕ, zero, suc, ◌+◌, ◌/◌, ◌%◌, ◌^◌, ◌<◌, ◌≡◌, refl, ap, sym, ◌∙◌, inl,
  inr, false, List, [], ◌∷◌, ◌++◌, some, ltb, arith, All, Bool-cases,
}
use hft.Message.Types.{OrderSide}
use hft.Programs.Numbers.{is_space, is_digit, scan_digits}
use hft.Programs.Decimal.{digits, scan-digits}
use hft.Programs.Arguments.{codes}
use hft.Programs.Streams.{skip_spaces, skip_digits, split_word, extract_word, extract_number}
use hft.Programs.Commands.{
  Command, empty_line, quit, heartbeat, stats, bad_order, bad_market_data, unknown, order,
  market_data, parse_command, side_of, order_fields, market_data_fields, fields_command, same_text,
  or_else,
}

abbrev side_text : OrderSide → List ℕ
side_text OrderSide.buy = codes "BUY"
side_text OrderSide.sell = codes "SELL"
side_text (OrderSide.unnamed n) = []

abbrev IsNamed : OrderSide → Type 0
IsNamed (OrderSide.unnamed n) = ⊥
IsNamed _ = Unit

-- A number after a space, in front of `rest`.
abbrev number_text : ℕ → List ℕ → List ℕ
number_text n rest = b' ' ∷ digits (suc n) n rest

-- A line for a command; those that are no command have none.
unfoldable pub command_text : Command → List ℕ
unfolding digits
command_text quit = codes "q"
command_text heartbeat = codes "h"
command_text stats = codes "s"
command_text (order symbol side quantity price) =
    b'o'
    ∷ b' '
    ∷ (symbol ++ (b' ' ∷ (side_text side ++ number_text quantity (number_text price []))))
command_text (market_data symbol bid_price ask_price) =
    b'm' ∷ b' ' ∷ symbol ++ number_text bid_price (number_text ask_price [])
command_text _ = []

-- A text that is not empty and has no space.
abbrev pub IsWord : List ℕ → Type 0
IsWord [] = ⊥
IsWord (c ∷ cs) = All (λ (d : ℕ). is_space d ≡ false) (c ∷ cs)

-- A command that a line can give: its symbol is a word, its side has a name, and its numbers fit their types.
unfoldable pub IsWritable : Command → Type 0
unfolding is_space
IsWritable (order symbol side quantity price) =
    IsWord symbol × IsNamed side × (quantity < 2 ^ 32) × (price < 2 ^ 64)
IsWritable (market_data symbol bid_price ask_price) =
    IsWord symbol × (bid_price < 2 ^ 64) × (ask_price < 2 ^ 64)
IsWritable bad_order = ⊥
IsWritable bad_market_data = ⊥
IsWritable unknown = ⊥
IsWritable _ = Unit

split_word-word :
    (word rest : List ℕ)
    → All (λ (d : ℕ). is_space d ≡ false) word
    → split_word (word ++ b' ' ∷ rest) ≡ (word, b' ' ∷ rest)
unfolding split_word is_space
split_word-word [] rest ok = refl
split_word-word (c ∷ word) rest (ok, oks) = ground (arith, ok, split_word-word word rest oks)

extract_word-word :
    (word rest : List ℕ)
    → IsWord word
    → extract_word (word ++ b' ' ∷ rest) ≡ some (word, b' ' ∷ rest)
unfolding extract_word skip_spaces is_space
extract_word-word [] rest ok = absurd ok
extract_word-word (c ∷ word) rest ok = ground (arith, ok.0, split_word-word (c ∷ word) rest ok)

-- The space before a word is passed over.
extract_word-space : (text : List ℕ) → extract_word (b' ' ∷ text) ≡ extract_word text
unfolding extract_word skip_spaces is_space
extract_word-space text = refl

skip_digits-digits :
    (fuel n : ℕ) (out : List ℕ) → n < fuel → skip_digits (digits fuel n out) ≡ skip_digits out
unfolding digits skip_digits is_digit
skip_digits-digits zero n out h = absurd (omega arith)
skip_digits-digits (suc fuel) n out h = elim (Bool-cases (ltb n 10)) [
  | inl last ↦ ground (arith, last)
  | inr more ↦
      let rest =
        skip_digits-digits fuel (n / 10) ((b'0' + n % 10) ∷ out) (ground (arith, h, more)) in
      ground (arith, more, rest)
]

-- A number that fits is read, up to a text that begins with no digit.
extract_number-text :
    (size n : ℕ) (rest : List ℕ)
    → n < size
    → scan_digits n rest ≡ n
    → skip_digits rest ≡ rest
    → extract_number size (number_text n rest) ≡ some (n, rest)
unfolding extract_number skip_spaces is_space is_digit
extract_number-text size n rest small value end =
    let (c, cs, e, d, f) = scan-digits (suc n) n rest (omega arith) in
    let skipped = ap skip_digits (sym e) ∙ skip_digits-digits (suc n) n rest (omega arith) ∙ end in
    ap (λ (l : List ℕ). extract_number size (b' ' ∷ l)) e
    ∙ ground (arith, d, f ∙ value, skipped, small)

side_word :
    (side : OrderSide) (rest : List ℕ)
    → IsNamed side
    → (extract_word (b' ' ∷ (side_text side ++ b' ' ∷ rest)) ≡ some (side_text side, b' ' ∷ rest))
      × (side_of (side_text side) ≡ side)
unfolding extract_word skip_spaces split_word is_space side_of same_text
side_word OrderSide.buy rest named = (refl, refl)
side_word OrderSide.sell rest named = (refl, refl)
side_word (OrderSide.unnamed n) rest named = absurd named

read_word :
    (word rest : List ℕ) (f : List ℕ × List ℕ → Option Command)
    → IsWord word
    → (extract_word (word ++ b' ' ∷ rest) >>= f) ≡ f (word, b' ' ∷ rest)
read_word word rest f ok = ap (λ o. o >>= f) (extract_word-word word rest ok)

read_number :
    (size n : ℕ) (rest : List ℕ) (f : ℕ × List ℕ → Option Command)
    → n < size
    → scan_digits n rest ≡ n
    → skip_digits rest ≡ rest
    → (extract_number size (number_text n rest) >>= f) ≡ f (n, rest)
read_number size n rest f small value end =
    ap (λ o. o >>= f) (extract_number-text size n rest small value end)

-- What two numbers in a row leave.
two_numbers :
    (size n m : ℕ) (f : ℕ → ℕ → Option Command)
    → n < size
    → m < 2 ^ 64
    → (extract_number size (number_text n (number_text m [])) >>= λ (p : ℕ × List ℕ).
        extract_number (2 ^ 64) p.1 >>= λ (q : ℕ × List ℕ). f p.0 q.0)
      ≡ f n m
unfolding scan_digits skip_digits is_digit
two_numbers size n m f small small' =
    read_number size n (number_text m []) _ small refl refl
    ∙ read_number (2 ^ 64) m [] _ small' refl refl

order_line :
    (symbol : List ℕ) (side : OrderSide) (quantity price : ℕ)
    → IsWritable (order symbol side quantity price)
    → order_fields
        (symbol ++ (b' ' ∷ (side_text side ++ number_text quantity (number_text price []))))
      ≡ some (order symbol side quantity price)
unfolding order_fields IsWritable
order_line symbol side quantity price (word, named, small, small') =
    let (side_read, same_side) =
      side_word side (digits (suc quantity) quantity (number_text price [])) named in
    read_word symbol _ _ word
    ∙ ap
        (λ (o : Option (List ℕ × List ℕ)). o >>= λ p. extract_number (2 ^ 32) p.1 >>= λ q.
          extract_number (2 ^ 64) q.1 >>= λ r. some (order symbol (side_of p.0) q.0 r.0))
        side_read
    ∙ two_numbers (2 ^ 32) quantity price
        (λ q r. some (order symbol (side_of (side_text side)) q r)) small small'
    ∙ ap (λ (d : OrderSide). some (order symbol d quantity price)) same_side

market_data_line :
    (symbol : List ℕ) (bid_price ask_price : ℕ)
    → IsWritable (market_data symbol bid_price ask_price)
    → market_data_fields (symbol ++ number_text bid_price (number_text ask_price []))
      ≡ some (market_data symbol bid_price ask_price)
unfolding market_data_fields IsWritable
market_data_line symbol bid_price ask_price (word, small, small') =
    read_word symbol _ _ word
    ∙ two_numbers (2 ^ 64) bid_price ask_price (λ b a. some (market_data symbol b a)) small small'

-- Every command of the interactive mode that a line can give, an order or market data with a
-- symbol that is a word, a side that has a name and numbers that fit their types among them, is
-- read back from the line that is written for it.
pub parse_command-text :
    (command : Command) → IsWritable command → parse_command (command_text command) ≡ command
unfolding parse_command command_text IsWritable same_text fields_command
parse_command-text empty_line ok = refl
parse_command-text quit ok = refl
parse_command-text heartbeat ok = refl
parse_command-text stats ok = refl
parse_command-text bad_order ok = absurd ok
parse_command-text bad_market_data ok = absurd ok
parse_command-text unknown ok = absurd ok
parse_command-text (order symbol side quantity price) ok =
    ap (or_else bad_order) (order_line symbol side quantity price ok)
parse_command-text (market_data symbol bid_price ask_price) ok =
    ap (or_else bad_market_data) (market_data_line symbol bid_price ask_price ok)
