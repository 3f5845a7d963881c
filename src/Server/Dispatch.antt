-- ===== src/Server/Dispatch.antt =====
-- src/hft_server.cpp: the branches of the dispatch on a message, in the words of `Content`.
use hft.Base.{
  ◌∷◌, append_assoc, Option-cases, ℕ, ◌≤◌, ◌≡◌, subst, true, false, inl, inr, List, [], ◌++◌, some,
  arith, length, leb, leb→le, append-nil, drop, Bool-cases,
}
use hft.Message.Types.{Message, MessageType, OrderMessage, MarketDataMessage}
use hft.Message.Layout.{message_size, order_size, market_data_size}
use hft.Message.Codec.{Reader, decode_message, decode_order, decode_market_data}
use hft.Message.Codec.Numbers.{Reads}
use hft.Message.Codec.Extent.{decode_message-Reads, decode_order-Reads, decode_market_data-Reads}
use hft.Message.Codec.Prefix.{Reads-prefix, decode_order-base, decode_market_data-base}
use hft.Message.Symbol.{symbol_text}
use hft.Server.State.{order_printed, market_data_printed, Server, Floats, same_type}
use hft.Server.Handling.{process_order_lem, process_market_lem, process_base_lem}
use hft.Server.Receive.{is_order_type, dispatch, log_all}
use hft.Server.Content.{read, log, outcome, settle, service_log, broadcast_log}

-- The readings of `bs` alone, and of a buffer that begins with `bs`.
record Same {A : Type 0} (m : Reader A) (bs buffer : List ℕ) : Type 0 where
  value : A
  after : List ℕ
  alone : List ℕ
  in_buffer : m buffer ≡ some (value, after)
  by_itself : m bs ≡ some (value, alone)

same :
    {A : Type 0} (n : ℕ) (m : Reader A)
    → Reads n m
    → (bs rest buffer : List ℕ) → buffer ≡ bs ++ rest
    → n ≤ length bs
    → Same m bs buffer
same n m r bs rest buffer b h =
    let (a, e) = Reads-prefix n m r bs h in
    record {
      value = a;
      after = drop n bs ++ rest;
      alone = drop n bs ++ [];
      in_buffer = rw b (e rest);
      by_itself = subst (λ (l : List ℕ). m l ≡ some (a, drop n bs ++ [])) (append-nil bs) (e []);
    }

module _ {D : Type 0} (F : Floats D) (bs : List ℕ) (latency_ns : ℕ) (s : Server D) {m : Message}
    {r r' : List ℕ} (here : decode_message s.recv_buffer ≡ some (m, r))
    (alone : decode_message bs ≡ some (m, r')) (big : leb message_size (length bs) ≡ true) where
  abbrev Refines : Type 0
  Refines =
      dispatch F (length bs) latency_ns s
      ≡ outcome F bs latency_ns (read bs (symbol_text s.recv_buffer)) s

  order_path :
      is_order_type m.message_type ≡ true
      → leb order_size (length bs) ≡ true
      → (o : OrderMessage) (q q' : List ℕ) → decode_order s.recv_buffer ≡ some (o, q)
      → decode_order bs ≡ some (o, q')
      → o.base ≡ m
      → Refines
  unfolding dispatch outcome settle read log
  order_path t b o q q' e e' c = elim (Option-cases (symbol_text s.recv_buffer)) [
    | inl runs_on ↦ ground arith
    | inr (text, p) ↦ ground (
      arith,
      process_order_lem s s.recv_buffer o q e (rw c t) text p,
      append_assoc (service_log (s.services o.message_type) text o) (order_printed text o ∷ [])
          s.effects,
    )
  ]

  market_path :
      is_order_type m.message_type ≡ false
      → same_type m.message_type MessageType.market_data ≡ true
      → leb market_data_size (length bs) ≡ true
      → (d : MarketDataMessage) (q q' : List ℕ) → decode_market_data s.recv_buffer ≡ some (d, q)
      → decode_market_data bs ≡ some (d, q')
      → d.base ≡ m
      → Refines
  unfolding dispatch outcome settle read log
  market_path t u b d q q' e e' c = elim (Option-cases (symbol_text s.recv_buffer)) [
    | inl runs_on ↦ ground arith
    | inr (text, p) ↦ ground (
      arith,
      process_market_lem s s.recv_buffer d q e (rw c u) text p,
      append_assoc (broadcast_log (s.services d.message_type) text d)
          (market_data_printed text d ∷ []) s.effects,
    )
  ]

  base_path :
      is_order_type m.message_type ≡ false
      → same_type m.message_type MessageType.market_data ≡ false
      → Refines
  unfolding dispatch outcome settle read log
  base_path t u = ground (arith, process_base_lem s s.recv_buffer m t u)

  short_order : is_order_type m.message_type ≡ true → leb order_size (length bs) ≡ false → Refines
  unfolding dispatch outcome settle read log log_all
  short_order t b = ground arith

  short_market :
      is_order_type m.message_type ≡ false
      → same_type m.message_type MessageType.market_data ≡ true
      → leb market_data_size (length bs) ≡ false
      → Refines
  unfolding dispatch outcome settle read log log_all
  short_market t u b = ground arith

module _ {D : Type 0} (F : Floats D) (bs : List ℕ) (latency_ns : ℕ) where
  pub type_cases :
      (s : Server D) (rest : List ℕ)
      → s.recv_buffer ≡ bs ++ rest
      → leb message_size (length bs) ≡ true
      → dispatch F (length bs) latency_ns s
        ≡ outcome F bs latency_ns (read bs (symbol_text s.recv_buffer)) s
  type_cases s rest e big =
      let front =
        same message_size decode_message decode_message-Reads bs rest s.recv_buffer e
          (leb→le _ _ big) in
      let here = front.in_buffer in
      let alone = front.by_itself in
      elim (Bool-cases (is_order_type front.value.message_type)) [
        | inl t ↦ elim (Bool-cases (leb order_size (length bs))) [
          | inl b ↦
              let o =
                same order_size decode_order decode_order-Reads bs rest s.recv_buffer e
                  (leb→le _ _ b) in
              order_path F bs latency_ns s here alone big t b o.value o.after o.alone o.in_buffer
                o.by_itself
                (decode_order-base s.recv_buffer front.value o.value front.after o.after here
                  o.in_buffer)
          | inr b ↦ short_order F bs latency_ns s here alone big t b
        ]
        | inr t ↦ elim (Bool-cases (same_type front.value.message_type MessageType.market_data)) [
          | inl u ↦ elim (Bool-cases (leb market_data_size (length bs))) [
            | inl b ↦
                let d =
                  same market_data_size decode_market_data decode_market_data-Reads bs rest
                    s.recv_buffer e (leb→le _ _ b) in
                market_path F bs latency_ns s here alone big t u b d.value d.after d.alone
                  d.in_buffer d.by_itself
                  (decode_market_data-base s.recv_buffer front.value d.value front.after d.after
                    here d.in_buffer)
            | inr b ↦ short_market F bs latency_ns s here alone big t u b
          ]
          | inr u ↦ base_path F bs latency_ns s here alone big t u
        ]
      ]
