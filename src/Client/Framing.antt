-- ===== src/Client/Framing.antt =====
-- Which messages `process_received_data` takes out of the bytes of one `recv`.
use hft.Base.{
  ℕ, zero, suc, ◌+◌, ◌≤◌, ◌<◌, ◌≡◌, refl, sym, ap, ◌∙◌, true, false, List, [], ◌∷◌, ◌++◌, Option,
  none, some, All, arith, length, length-append, drop, drop-append, append_assoc, leb,
}
use hft.Message.Types.{Message}
use hft.Message.Layout.{message_size}
use hft.Message.Codec.{encode_message, decode_message}
use hft.Message.Codec.RoundTrip.{IsEncodable, decode_message-encode_message}
use hft.Message.Codec.Extent.{length-encode_message}
use hft.Client.State.{Client, Floats}
use hft.Client.Receive.{process_one, process_loop, process_received_data}

-- Messages one behind the other, as TCP delivers them.
abbrev pub encode_all : List Message → List ℕ
encode_all [] = []
encode_all (m ∷ ms) = encode_message m ++ encode_all ms

length-encode_all : (ms : List Message) → All IsEncodable ms → length ms ≤ length (encode_all ms)
length-encode_all [] ok = omega arith
length-encode_all (m ∷ ms) (ok, oks) = omega (
  arith,
  length-append (encode_message m) (encode_all ms),
  length-encode_message m ok.payload_full,
  length-encode_all ms oks,
)

drop_nothing : (n k : ℕ) → drop {A = ℕ} n [] ≡ drop k []
drop_nothing zero zero = refl
drop_nothing zero (suc k) = refl
drop_nothing (suc n) zero = refl
drop_nothing (suc n) (suc k) = refl

drop-drop : (n k : ℕ) (l : List ℕ) → drop n (drop k l) ≡ drop (k + n) l
drop-drop n zero l = ap (λ (i : ℕ). drop i l) (omega arith)
drop-drop n (suc k) [] = drop_nothing n (suc k + n)
drop-drop n (suc k) (x ∷ l) = drop-drop n k l ∙ ap (λ (i : ℕ). drop i (x ∷ l)) sum_suc
  where
    sum_suc : suc (k + n) ≡ suc k + n
    sum_suc = omega arith

module _ {D : Type 0} (F : Floats D) where
  -- The messages handled in order, each with the clock at its offset.
  abbrev pub handle_all : (ℕ → ℕ) → ℕ → List Message → Client D → Option (Client D)
  handle_all clock offset [] c = some c
  handle_all clock offset (m ∷ ms) c = elim (process_one F (clock offset) m c) [
    | none ↦ none
    | some c' ↦ handle_all clock (offset + message_size) ms c'
  ]

  loop_end :
      (fuel : ℕ) (clock : ℕ → ℕ) (bytes : List ℕ) (offset : ℕ) (c : Client D)
      → leb (offset + message_size) (length bytes) ≡ false
      → process_loop F (suc fuel) clock bytes offset c ≡ some c
  unfolding process_loop
  loop_end fuel clock bytes offset c h = ground (arith, h)

  loop_turn :
      (fuel : ℕ) (clock : ℕ → ℕ) (bytes : List ℕ) (offset : ℕ) (c : Client D) (m : Message)
      (rest : List ℕ)
      → leb (offset + message_size) (length bytes) ≡ true
      → decode_message (drop offset bytes) ≡ some (m, rest)
      → process_loop F (suc fuel) clock bytes offset c ≡ elim (process_one F (clock offset) m c) [
        | none ↦ none
        | some c' ↦ process_loop F fuel clock bytes (offset + message_size) c'
      ]
  unfolding process_loop
  loop_turn fuel clock bytes offset c m rest h e = ground (arith, h, e)

  process_loop-encode_all :
      (fuel : ℕ) (clock : ℕ → ℕ) (ms : List Message) (tail bytes : List ℕ) (offset : ℕ)
      (c : Client D)
      → All IsEncodable ms
      → length tail < message_size
      → length ms < fuel
      → drop offset bytes ≡ encode_all ms ++ tail
      → length bytes ≡ offset + length (encode_all ms ++ tail)
      → process_loop F fuel clock bytes offset c ≡ handle_all clock offset ms c
  process_loop-encode_all zero clock ms tail bytes offset c ok short h e f = absurd (omega arith)
  process_loop-encode_all (suc fuel) clock [] tail bytes offset c ok short h e f =
      loop_end fuel clock bytes offset c (ground (arith, short, f))
  process_loop-encode_all (suc fuel) clock (m ∷ ms) tail bytes offset c (ok, oks) short h e f =
      loop_turn fuel clock bytes offset c m (encode_all ms ++ tail) fits
        (ap decode_message (e ∙ assoc) ∙ decode_message-encode_message m (encode_all ms ++ tail) ok)
      ∙ ap continue (λ i c'.
        process_loop-encode_all fuel clock ms tail bytes (offset + message_size) c' oks short
          (omega arith) next left i)
    where
      size : length (encode_message m) ≡ message_size
      size = length-encode_message m ok.payload_full

      assoc : encode_all (m ∷ ms) ++ tail ≡ encode_message m ++ (encode_all ms ++ tail)
      assoc = append_assoc (encode_message m) (encode_all ms) tail

      whole : length (encode_all (m ∷ ms) ++ tail) ≡ message_size + length (encode_all ms ++ tail)
      whole =
          ap length assoc
          ∙ length-append (encode_message m) (encode_all ms ++ tail)
          ∙ ap (λ (n : ℕ). n + length (encode_all ms ++ tail)) size

      fits : leb (offset + message_size) (length bytes) ≡ true
      fits = ground (arith, f, whole)

      next : drop (offset + message_size) bytes ≡ encode_all ms ++ tail
      next =
          sym (drop-drop message_size offset bytes)
          ∙ ap (drop message_size) (e ∙ assoc)
          ∙ drop-append message_size (encode_message m) (encode_all ms ++ tail) size

      left : length bytes ≡ offset + message_size + length (encode_all ms ++ tail)
      left = omega (arith, f, whole)

      continue : (Client D → Option (Client D)) → Option (Client D)
      continue k = elim (process_one F (clock offset) m c) [ none ↦ none | some c' ↦ k c' ]

  -- When the bytes received are whole messages, whose numbers fit their fields, and then less
  -- than one more: each of the messages is handled, in order and with the clock at its place,
  -- until one faults; the loop ends, and the bytes of the tail are dropped.
  pub process_received_data-encode_all :
      (clock : ℕ → ℕ) (ms : List Message) (tail : List ℕ) (c : Client D)
      → All IsEncodable ms
      → length tail < message_size
      → process_received_data F clock (encode_all ms ++ tail) c ≡ handle_all clock 0 ms c
  unfolding process_received_data
  process_received_data-encode_all clock ms tail c ok short =
      process_loop-encode_all (suc (length (encode_all ms ++ tail))) clock ms tail
        (encode_all ms ++ tail) 0 c ok short
        (omega (arith, length-encode_all ms ok, length-append (encode_all ms) tail)) refl
        (omega arith)
