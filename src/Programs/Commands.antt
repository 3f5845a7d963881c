-- ===== src/Programs/Commands.antt =====
-- src/hft_tcp_client_test.cpp: the commands of the interactive mode. A line is a list of character
-- codes.
use hft.Base.{
  ℕ, ◌^◌, Bool, true, false, ◌&&◌, ◌||◌, List, [], ◌∷◌, Option, none, some, ◌==◌, ◌>>=◌,
  if◌then◌else◌,
}
use hft.Message.Types.{OrderSide}
use hft.Programs.Arguments.{codes}
use hft.Programs.Streams.{extract_word, extract_number}

pub data Command : Type 0 where
  empty_line quit heartbeat stats bad_order bad_market_data unknown : Command
  order : List ℕ → OrderSide → ℕ → ℕ → Command
  market_data : List ℕ → ℕ → ℕ → Command

unfoldable pub same_text : List ℕ → List ℕ → Bool
same_text [] [] = true
same_text [] (d ∷ ds) = false
same_text (c ∷ cs) [] = false
same_text (c ∷ cs) (d ∷ ds) = c == d && same_text cs ds

-- Only the one word is a sale.
unfoldable pub side_of : List ℕ → OrderSide
unfolding same_text
side_of text = if same_text text (codes "SELL") then OrderSide.sell else OrderSide.buy

-- `iss >> symbol >> side_str >> quantity >> price`; what follows is not looked at.
unfoldable pub order_fields : List ℕ → Option Command
unfolding extract_word extract_number side_of
order_fields text = do
  (symbol, after_symbol) ← extract_word text
  (side_str, after_side) ← extract_word after_symbol
  (quantity, after_quantity) ← extract_number (2 ^ 32) after_side
  (price, after_price) ← extract_number (2 ^ 64) after_quantity
  some (order symbol (side_of side_str) quantity price)

-- `iss >> symbol >> bid_price >> ask_price`
unfoldable pub market_data_fields : List ℕ → Option Command
unfolding extract_word extract_number
market_data_fields text = do
  (symbol, after_symbol) ← extract_word text
  (bid_price, after_bid) ← extract_number (2 ^ 64) after_symbol
  (ask_price, after_ask) ← extract_number (2 ^ 64) after_bid
  some (market_data symbol bid_price ask_price)

-- A format that is not met is told.
abbrev pub or_else : Command → Option Command → Command
or_else bad none = bad
or_else bad (some command) = command

-- A line whose first two characters may be those of a command with fields.
unfoldable pub fields_command : List ℕ → Command
unfolding order_fields market_data_fields
fields_command (c ∷ d ∷ rest) =
    if c == b'o' && d == b' '
    then or_else bad_order (order_fields rest)
    else if c == b'm' && d == b' '
    then or_else bad_market_data (market_data_fields rest)
    else unknown
fields_command (c ∷ []) = unknown
fields_command [] = empty_line

unfoldable pub parse_command : List ℕ → Command
unfolding same_text fields_command
parse_command line =
    if same_text line []
    then empty_line
    else if same_text line (codes "q") || same_text line (codes "quit")
    then quit
    else if same_text line (codes "h") || same_text line (codes "heartbeat")
    then heartbeat
    else if same_text line (codes "s") || same_text line (codes "stats")
    then stats
    else fields_command line
