-- ===== src/Message/Symbol.antt =====
-- inc/message.h: `symbol.data()` as a C string. The symbol need not end with a 0, and whoever prints
-- it reads on in the memory behind it until there is one. `none` is a memory that ends before.
use hft.Base.{
  ℕ, zero, suc, ◌≡◌, inl, inr, ◌≤◌, length, List, [], ◌∷◌, ◌++◌, Option, none, some, drop, arith,
  ◌==◌, Bool-cases, Option-cases, if◌then◌else◌,
}

unfoldable pub c_string : List ℕ → Option (List ℕ)
c_string [] = none
c_string (b ∷ bs) =
    let rest = c_string bs in
    if b == 0 then some [] else elim rest [ none ↦ none | some text ↦ some (b ∷ text) ]

-- `offsetof(OrderMessage, symbol)`, which is that of `MarketDataMessage` too.
abbrev pub symbol_offset : ℕ
symbol_offset = 1060

-- The text of the symbol of the structure that `memory` begins with.
unfoldable pub symbol_text : List ℕ → Option (List ℕ)
unfolding c_string
symbol_text memory = c_string (drop symbol_offset memory)

pub c_string-append :
    (bs rest text : List ℕ) → c_string bs ≡ some text → c_string (bs ++ rest) ≡ some text
unfolding c_string
c_string-append [] rest text h = absurd (ground (arith, h))
c_string-append (b ∷ bs) rest text h = elim (Bool-cases (b == 0)) [
  | inl ends ↦ ground (arith, ends, h)
  | inr goes_on ↦ elim (Option-cases (c_string bs)) [
    | inl lost ↦ absurd (ground (arith, goes_on, lost, h))
    | inr (more, found) ↦ ground (arith, goes_on, found, h, c_string-append bs rest more found)
  ]
]

c_string-drop_append :
    (n : ℕ) (bs rest text : List ℕ)
    → c_string (drop n bs) ≡ some text
    → c_string (drop n (bs ++ rest)) ≡ some text
unfolding c_string
c_string-drop_append zero bs rest text h = c_string-append bs rest text h
c_string-drop_append (suc n) [] rest text h = absurd (ground (arith, h))
c_string-drop_append (suc n) (b ∷ bs) rest text h = c_string-drop_append n bs rest text h

-- A symbol that ends within some bytes is the same whatever stands behind them.
pub symbol_text-append :
    (bs rest text : List ℕ) → symbol_text bs ≡ some text → symbol_text (bs ++ rest) ≡ some text
unfolding symbol_text
symbol_text-append bs rest text h = c_string-drop_append symbol_offset bs rest text h

-- In bytes with no 0 from the symbol on, the text goes on in what stands behind them.
c_string-runs_on :
    (n : ℕ) (bs rest : List ℕ)
    → n ≤ length bs
    → c_string (drop n bs) ≡ none
    → c_string (drop n (bs ++ rest))
      ≡ (elim (c_string rest) [ none ↦ none | some text ↦ some (drop n bs ++ text) ])
unfolding c_string
c_string-runs_on zero [] rest h e = ground arith
c_string-runs_on zero (b ∷ bs) rest h e =
    ground (arith, e, c_string-runs_on zero bs rest (omega arith))
c_string-runs_on (suc n) [] rest h e = absurd (omega (arith, h))
c_string-runs_on (suc n) (b ∷ bs) rest h e = c_string-runs_on n bs rest (omega (arith, h)) e

pub symbol_text-runs_on :
    (bs rest : List ℕ)
    → symbol_offset ≤ length bs
    → symbol_text bs ≡ none
    → symbol_text (bs ++ rest)
      ≡ (elim (c_string rest) [ none ↦ none | some text ↦ some (drop symbol_offset bs ++ text) ])
unfolding symbol_text
symbol_text-runs_on bs rest h e = c_string-runs_on symbol_offset bs rest h e
