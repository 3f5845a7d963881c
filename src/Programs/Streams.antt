-- ===== src/Programs/Streams.antt =====
-- src/hft_tcp_client_test.cpp: what `>>` reads from a `std::istringstream`. A text is a list of
-- character codes; `none` is a stream that has failed.
use hft.Base.{
  ℕ, ◌-◌, ◌%◌, Bool, true, false, List, [], ◌∷◌, Option, none, some, ltb, ◌==◌, if◌then◌else◌,
}
use hft.Programs.Numbers.{is_space, is_digit, scan_digits}

unfoldable pub skip_spaces : List ℕ → List ℕ
unfolding is_space
skip_spaces [] = []
skip_spaces (c ∷ cs) = let rest = skip_spaces cs in if is_space c then rest else c ∷ cs

unfoldable pub skip_digits : List ℕ → List ℕ
unfolding is_digit
skip_digits [] = []
skip_digits (c ∷ cs) = let rest = skip_digits cs in if is_digit c then rest else c ∷ cs

-- The characters up to the first space, and what follows them.
unfoldable pub split_word : List ℕ → List ℕ × List ℕ
unfolding is_space
split_word [] = ([], [])
split_word (c ∷ cs) =
    let (word, rest) = split_word cs in if is_space c then ([], c ∷ cs) else (c ∷ word, rest)

-- `>>` to a `std::string`.
word_at : List ℕ → Option (List ℕ × List ℕ)
unfolding split_word
word_at [] = none
word_at (c ∷ cs) = some (split_word (c ∷ cs))

unfoldable pub extract_word : List ℕ → Option (List ℕ × List ℕ)
unfolding skip_spaces word_at
extract_word text = word_at (skip_spaces text)

-- The digits of a number below `size`; a negative number is taken modulo `size`.
digits_at : ℕ → Bool → List ℕ → Option (ℕ × List ℕ)
unfolding scan_digits skip_digits
digits_at size negative [] = none
digits_at size negative (c ∷ cs) =
    let n = scan_digits 0 (c ∷ cs) in
    if is_digit c
    then (if ltb n size
        then some (if negative then (size - n) % size else n, skip_digits (c ∷ cs))
        else none)
    else none

number_at : ℕ → List ℕ → Option (ℕ × List ℕ)
unfolding digits_at
number_at size [] = none
number_at size (c ∷ cs) =
    if c == b'-'
    then digits_at size true cs
    else if c == b'+'
    then digits_at size false cs
    else digits_at size false (c ∷ cs)

-- `>>` to an unsigned integer of values below `size`.
unfoldable pub extract_number : ℕ → List ℕ → Option (ℕ × List ℕ)
unfolding skip_spaces number_at
extract_number size text = number_at size (skip_spaces text)
