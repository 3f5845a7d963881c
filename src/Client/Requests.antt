-- ===== src/Client/Requests.antt =====
-- The messages that the client builds, against the sizes of inc/message.h.
use hft.Base.{
  ℕ, zero, suc, take-append, ◌+◌, ◌-◌, ◌^◌, ◌≤◌, ◌<◌, ◌≡◌, refl, List, [], ◌∷◌, ◌++◌, none, some,
  arith, length, length-append, length-replicate, length-take, take, replicate, get_elem?,
}
use hft.Message.Types.{OrderMessage, MarketDataMessage, payload_capacity}
use hft.Message.Codec.Extent.{length-encode_order, length-encode_market_data}
use hft.Client.State.{Client}
use hft.Client.Messages.{new_request, copy_to_payload, symbol_of, c_str, create_test_market_data}
use hft.Client.Send.{send_order, send_market_data}

module _ {D : Type 0} where
  -- `send_order` writes past the end of the payload for every order with a payload of 1024 bytes
  -- and a symbol of 16, whether or not the client is connected: an order has 1120 bytes.
  pub send_order_overflows :
      (id now : ℕ) (order : OrderMessage) (c : Client D)
      → length order.payload ≡ payload_capacity
      → length order.symbol ≡ 16
      → send_order id now order c ≡ none
  unfolding send_order new_request copy_to_payload
  send_order_overflows id now order c full sym16 =
      ground (arith, length-encode_order order full sym16)

  -- `send_market_data` writes past the end of the payload for all market data with a payload of
  -- 1024 bytes and a symbol of 16: market data has 1152 bytes.
  pub send_market_data_overflows :
      (id now : ℕ) (d : MarketDataMessage) (c : Client D)
      → length d.payload ≡ payload_capacity
      → length d.symbol ≡ 16
      → send_market_data id now d c ≡ none
  unfolding send_market_data new_request copy_to_payload
  send_market_data_overflows id now d c full sym16 =
      ground (arith, length-encode_market_data d full sym16)

get_elem?-replicate : (k i : ℕ) → i < k → get_elem? (replicate k zero) i ≡ some zero
get_elem?-replicate zero i h = elim h [ ]
get_elem?-replicate (suc k) zero h = refl
get_elem?-replicate (suc k) (suc i) h = get_elem?-replicate k i (omega arith)

get_elem?-padded :
    (xs : List ℕ) (k n : ℕ)
    → k + length xs ≡ suc n
    → 0 < k
    → get_elem? (xs ++ replicate k 0) n ≡ some 0
get_elem?-padded [] k n e h = get_elem?-replicate k n (omega arith)
get_elem?-padded (x ∷ xs) k zero e h = absurd (omega arith)
get_elem?-padded (x ∷ xs) k (suc n) e h = get_elem?-padded xs k n (omega arith) h

-- The symbol of a test message has 16 bytes, the last of which is a NUL, and begins with the
-- characters of the text before its first NUL, 15 at most.
pub symbol_of_lem :
    (text : List ℕ)
    → (length (symbol_of text) ≡ 16)
      × (get_elem? (symbol_of text) 15 ≡ some 0)
      × (take (length (take 15 (c_str text))) (symbol_of text) ≡ take 15 (c_str text))
unfolding symbol_of
symbol_of_lem text = (
  omega (arith, short, length-append copied padding, length-replicate (16 - length copied) zero),
  get_elem?-padded copied (16 - length copied) 15 (omega (arith, short)) (omega (arith, short)),
  take-append (length copied) copied padding refl,
)
  where
    copied : List ℕ
    copied = take 15 (c_str text)

    padding : List ℕ
    padding = replicate (16 - length copied) 0

    short : length copied ≤ 15
    short = omega (arith, length-take 15 (c_str text))

-- Where bid is at most ask and their sum fits 64 bits, the last price of test market data lies
-- between its low price and its high price.
pub last_price_between :
    (id now volume bid bid_size ask ask_size : ℕ) (symbol : List ℕ)
    → bid ≤ ask
    → bid + ask < 2 ^ 64
    → let d = create_test_market_data id now volume symbol bid bid_size ask ask_size in
      (d.low_price ≤ d.last_price) × (d.last_price ≤ d.high_price)
unfolding create_test_market_data
last_price_between id now volume bid bid_size ask ask_size symbol h fits = ground arith
