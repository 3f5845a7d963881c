-- ===== src/Programs/Decimal.antt =====
-- Decimal texts, and what `std::stoi` and `std::stoul` read from them.
use hft.Base.{
  ℕ, zero, suc, ◌+◌, ◌-◌, ◌*◌, ◌/◌, ◌%◌, ◌^◌, ◌<◌, ◌≡◌, ap, ◌∙◌, inl, inr, true, false, List, [],
  ◌∷◌, some, ltb, arith, Bool-cases,
}
use hft.Programs.Numbers.{
  is_space, is_digit, scan_digits, unsigned, signed, read_number, to_port, to_size,
}

-- The decimal digits of `n` in front of `out`, for more fuel than `n`.
unfoldable pub digits : ℕ → ℕ → List ℕ → List ℕ
digits zero n out = out
digits (suc fuel) n out = elim (ltb n 10) [
  | true ↦ (b'0' + n) ∷ out
  | false ↦ digits fuel (n / 10) ((b'0' + n % 10) ∷ out)
]

-- The decimal text of a number, without leading zeros.
unfoldable pub decimal : ℕ → List ℕ
unfolding digits
decimal n = digits (suc n) n []

scan_step :
    (n : ℕ) (out : List ℕ) → scan_digits (n / 10) ((b'0' + n % 10) ∷ out) ≡ scan_digits n out
unfolding scan_digits is_digit
scan_step n out = ground (arith, ap (λ (k : ℕ). scan_digits k out) whole)
  where
    whole : n / 10 * 10 + (b'0' + n % 10 - b'0') ≡ n
    whole = omega arith

pub scan-digits :
    (fuel n : ℕ) (out : List ℕ)
    → n < fuel
    → (c : ℕ) × (cs : List ℕ) × (digits fuel n out ≡ c ∷ cs)
      × (is_digit c ≡ true)
      × (scan_digits 0 (c ∷ cs) ≡ scan_digits n out)
unfolding digits scan_digits is_digit
scan-digits zero n out h = absurd (omega arith)
scan-digits (suc fuel) n out h = elim (Bool-cases (ltb n 10)) [
  | inl last ↦
      (b'0' + n, out, ground (arith, last), ground (arith, last), ground (arith, last, shown 0 n))
  | inr more ↦
      let (c, cs, e, d, f) =
        scan-digits fuel (n / 10) ((b'0' + n % 10) ∷ out) (ground (arith, h, more)) in
      (c, cs, ground (arith, e, more), d, f ∙ scan_step n out)
]
  where
    shown : (m k : ℕ) → m * 10 + (b'0' + k - b'0') ≡ m * 10 + k
    shown m k = omega arith

-- A text that begins with a digit is read by the digits at its front.
read_number-digit :
    (c : ℕ) (cs : List ℕ)
    → is_digit c ≡ true
    → read_number (c ∷ cs) ≡ some (record { negative = false; magnitude = scan_digits 0 (c ∷ cs) })
unfolding read_number signed unsigned is_space is_digit
read_number-digit c cs d = ground (arith, d)

pub read_number-decimal :
    (n : ℕ) → read_number (decimal n) ≡ some (record { negative = false; magnitude = n })
unfolding decimal scan_digits
read_number-decimal n =
    let (c, cs, e, d, f) = scan-digits (suc n) n [] (omega arith) in
    ap read_number e
    ∙ read_number-digit c cs d
    ∙ ap (λ (m : ℕ). some (record { negative = false; magnitude = m })) f

-- A port is read as it is written.
pub to_port-decimal : (n : ℕ) → n < 2 ^ 16 → to_port (decimal n) ≡ some n
unfolding to_port
to_port-decimal n h = ground (arith, read_number-decimal n, h)

pub to_size-decimal : (n : ℕ) → n < 2 ^ 64 → to_size (decimal n) ≡ some n
unfolding to_size
to_size-decimal n h = ground (arith, read_number-decimal n, h)
