-- ===== src/Programs/Numbers.antt =====
-- src/main.cpp: the texts that `std::stoi` and `std::stoul` take, with their casts. A text is a list
-- of character codes; `none` is one of their two exceptions.
use hft.Base.{
  ℕ, ◌+◌, ◌-◌, ◌*◌, ◌%◌, ◌^◌, Bool, true, false, ◌&&◌, ◌||◌, List, [], ◌∷◌, Option, none, some, leb,
  ltb, ◌==◌, if◌then◌else◌,
}

pub record Number : Type 0 where
  pub negative : Bool
  pub magnitude : ℕ

unfoldable pub is_space : ℕ → Bool
is_space c = c == 32 || (leb 9 c && leb c 13)

unfoldable pub is_digit : ℕ → Bool
is_digit c = leb b'0' c && leb c b'9'

-- The digits at the front of the text, onto `n`.
unfoldable pub scan_digits : ℕ → List ℕ → ℕ
unfolding is_digit
scan_digits n [] = n
scan_digits n (c ∷ cs) =
    let rest = scan_digits (n * 10 + (c - b'0')) cs in if is_digit c then rest else n

-- With no digit there is no number.
unfoldable pub unsigned : Bool → List ℕ → Option Number
unfolding scan_digits
unsigned negative [] = none
unsigned negative (c ∷ cs) =
    if is_digit c
    then some (record { negative = negative; magnitude = scan_digits 0 (c ∷ cs) })
    else none

unfoldable pub signed : List ℕ → Option Number
unfolding unsigned
signed [] = none
signed (c ∷ cs) =
    if c == b'-'
    then unsigned true cs
    else if c == b'+'
    then unsigned false cs
    else unsigned false (c ∷ cs)

unfoldable pub read_number : List ℕ → Option Number
unfolding signed is_space
read_number [] = none
read_number (c ∷ cs) = let rest = read_number cs in if is_space c then rest else signed (c ∷ cs)

-- A number as an unsigned one of `2 ^ w`.
abbrev pub wrap : ℕ → Number → ℕ
wrap size n = if n.negative then (size - n.magnitude % size) % size else n.magnitude % size

-- `static_cast<uint16_t>(std::stoi(text))`
unfoldable pub to_port : List ℕ → Option ℕ
unfolding read_number
to_port text = elim (read_number text) [
  | none ↦ none
  | some n ↦
      if ltb n.magnitude (2 ^ 31) || (n.negative && n.magnitude == 2 ^ 31)
      then some (wrap (2 ^ 16) n)
      else none
]

-- `std::stoul(text)`, for an `unsigned long` of 64 bits.
unfoldable pub to_size : List ℕ → Option ℕ
unfolding read_number
to_size text = elim (read_number text) [
  | none ↦ none
  | some n ↦ if ltb n.magnitude (2 ^ 64) then some (wrap (2 ^ 64) n) else none
]
