-- ===== src/Message/Codec/Prefix.antt =====
-- A cast of a buffer whose front was overwritten by enough bytes reads those bytes alone.
use hft.Base.{
  ℕ, ◌≤◌, ◌≡◌, ap, sym, ◌∙◌, List, ◌++◌, some, arith, length, take, drop, length-take,
  take-append-drop, append_assoc,
}
use hft.Message.Types.{Message, OrderMessage, MarketDataMessage}
use hft.Message.Codec.{
  Reader, decode_message, decode_order, decode_order_fields, decode_market_data,
  decode_market_data_fields,
}
use hft.Message.Codec.Numbers.{Reads}

pub Reads-prefix :
    {A : Type 0} (n : ℕ) (m : Reader A)
    → Reads n m
    → (bs : List ℕ) → n ≤ length bs
    → (a : A) × ((rest : List ℕ) → m (bs ++ rest) ≡ some (a, drop n bs ++ rest))
Reads-prefix n m r bs h =
    let (a, e) = r.reads (take n bs) (omega (arith, length-take n bs)) in
    (a, λ rest. rw (cut rest) (e (drop n bs ++ rest)))
  where
    cut : (rest : List ℕ) → bs ++ rest ≡ take n bs ++ (drop n bs ++ rest)
    cut rest =
        ap (λ (l : List ℕ). l ++ rest) (sym (take-append-drop n bs))
        ∙ append_assoc (take n bs) (drop n bs) rest

-- The casts of one buffer agree on the common part.
pub decode_order-base :
    (bs : List ℕ) (m : Message) (o : OrderMessage) (r r' : List ℕ)
    → decode_message bs ≡ some (m, r)
    → decode_order bs ≡ some (o, r')
    → o.base ≡ m
unfolding decode_message decode_order decode_order_fields
decode_order-base bs m o r r' h k = ground arith

pub decode_market_data-base :
    (bs : List ℕ) (m : Message) (d : MarketDataMessage) (r r' : List ℕ)
    → decode_message bs ≡ some (m, r)
    → decode_market_data bs ≡ some (d, r')
    → d.base ≡ m
unfolding decode_message decode_market_data decode_market_data_fields
decode_market_data-base bs m d r r' h k = ground arith
