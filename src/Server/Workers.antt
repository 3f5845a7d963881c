-- ===== src/Server/Workers.antt =====
-- Two workers and the one buffer that they receive into. A worker's turn of the receive loop is two
-- steps, the `recv` and what follows it, and the other worker may step in between.
use hft.Base.{
  ℕ, ◌≤◌, ◌≡◌, refl, ap, sym, ◌∙◌, List, [], ◌∷◌, ◌++◌, Option, none, some, arith, length, leb,
  drop, drop-append, overwrite, append-nil, if◌then◌else◌, subst,
}
use hft.Message.Types.{MessageType, OrderMessage}
use hft.Message.Layout.{message_size, order_size}
use hft.Message.Codec.{encode_order}
use hft.Message.Symbol.{c_string}
use hft.Message.Codec.Extent.{length-encode_order}
use hft.Message.Codec.RoundTrip.{IsOrderEncodable}
use hft.Server.State.{
  Server, Floats, order_service, order_received, order_printed, incomplete, emit,
}
use hft.Server.Receive.{receive_chunk, dispatch, update_stats}
use hft.Server.Delivery.{order_delivered}

-- A step of some worker.
pub data Action : Type 0 where
  receives : List ℕ → Action
  processes : ℕ → ℕ → Action  -- the bytes that its `recv` returned, the nanoseconds taken

module _ {D : Type 0} where
  -- `recv(client_fd, recv_buffer_.data(), …)`
  unfoldable pub fill : List ℕ → Server D → Server D
  fill bs s = record s { recv_buffer = overwrite s.recv_buffer bs }

module _ {D : Type 0} (F : Floats D) where
  -- The rest of the turn, by a worker whose `recv` returned `bytes_read`.
  unfoldable pub process_filled : ℕ → ℕ → Server D → Option (Server D)
  process_filled bytes_read latency_ns s =
      if leb message_size bytes_read
      then dispatch F bytes_read latency_ns s
      else some (emit (incomplete bytes_read message_size) s)

  receive_chunk-split :
      (bs : List ℕ) (latency_ns : ℕ) (s : Server D)
      → receive_chunk F bs latency_ns s ≡ process_filled (length bs) latency_ns (fill bs s)
  unfolding receive_chunk process_filled fill
  receive_chunk-split bs latency_ns s = refl

  unfoldable pub act : Action → Server D → Option (Server D)
  unfolding fill process_filled
  act (receives bs) s = some (fill bs s)
  act (processes bytes_read latency_ns) s = process_filled bytes_read latency_ns s

  unfoldable pub run_schedule : List Action → Server D → Option (Server D)
  unfolding act
  run_schedule [] s = some s
  run_schedule (a ∷ as') s = elim (act a s) [ none ↦ none | some s' ↦ run_schedule as' s' ]

overwrite_twice : (buffer bs : List ℕ) → overwrite (overwrite buffer bs) bs ≡ overwrite buffer bs
overwrite_twice buffer bs =
    ap (λ (l : List ℕ). bs ++ l) (drop-append (length bs) bs (drop (length bs) buffer) refl)

-- A whole order that the service takes, whose symbol is `text` up to a 0 in its array.
pub record IsTaken (text : List ℕ) (o : OrderMessage) : Type 0 where
  pub encodable : IsOrderEncodable o
  pub is_new : o.message_type ≡ MessageType.order_new
  pub is_big : order_size ≤ o.payload_size
  pub terminated : c_string o.symbol ≡ some text

module _ {D : Type 0} (F : Floats D) where
  -- The server after an order, whose symbol is printed as `text`, has reached the service.
  abbrev pub taken : List ℕ → OrderMessage → ℕ → Server D → Server D
  taken text o latency_ns s =
      update_stats F latency_ns (emit (order_received text o) (emit (order_printed text o) s))

  process_order_filled :
      (text : List ℕ) (o : OrderMessage) (latency_ns : ℕ) (s : Server D)
      → IsTaken text o
      → s.services MessageType.order_new ≡ some order_service
      → process_filled F order_size latency_ns (fill (encode_order o) s)
        ≡ some (taken text o latency_ns (fill (encode_order o) s))
  unfolding fill
  process_order_filled text o latency_ns s k service =
      ap (λ (n : ℕ). process_filled F n latency_ns (fill bytes s)) (sym whole)
      ∙ sym (receive_chunk-split F bytes latency_ns s)
      ∙ subst
          (λ (l : List ℕ).
            receive_chunk F l latency_ns s ≡ some (taken text o latency_ns (fill l s)))
          (append-nil bytes)
          (order_delivered F latency_ns s o [] text k.encodable k.terminated k.is_new k.is_big
            service)
    where
      bytes : List ℕ
      bytes = encode_order o

      whole : length (encode_order o) ≡ order_size
      whole = length-encode_order o k.encodable.base_encodable.payload_full k.encodable.symbol_full

  -- A second worker finds what the first one found.
  process_again :
      (text : List ℕ) (o : OrderMessage) (first_ns latency_ns : ℕ) (s : Server D)
      → IsTaken text o
      → s.services MessageType.order_new ≡ some order_service
      → process_filled F order_size latency_ns (taken text o first_ns (fill (encode_order o) s))
        ≡ some (taken text o latency_ns (taken text o first_ns (fill (encode_order o) s)))
  unfolding fill update_stats
  process_again text o first_ns latency_ns s k service =
      ap (process_filled F order_size latency_ns) (sym same)
      ∙ process_order_filled text o latency_ns after k service
      ∙ ap (λ (t : Server D). some (taken text o latency_ns t)) same
    where
      after : Server D
      after = taken text o first_ns (fill (encode_order o) s)

      same : fill (encode_order o) after ≡ after
      same = λ i. record after { recv_buffer = overwrite_twice s.recv_buffer (encode_order o) i }

  run_step :
      (s : Server D) {t : Server D} (a : Action) (as' : List Action)
      → act F a s ≡ some t
      → run_schedule F (a ∷ as') s ≡ run_schedule F as' t
  unfolding run_schedule
  run_step s a as' e = ground (arith, e)

  run_end : (s : Server D) → run_schedule F [] s ≡ some s
  unfolding run_schedule
  run_end s = refl

  filled :
      (bs : List ℕ) (s : Server D)
      → s.services MessageType.order_new ≡ some order_service
      → (fill bs s).services MessageType.order_new ≡ some order_service
  unfolding fill
  filled bs s e = e

  kept :
      (text : List ℕ) (o : OrderMessage) (ns : ℕ) (s : Server D)
      → s.services MessageType.order_new ≡ some order_service
      → (taken text o ns (fill (encode_order o) s)).services MessageType.order_new
        ≡ some order_service
  unfolding fill update_stats
  kept text o ns s e = e

  -- Two whole orders that the order service takes, with symbols that are `text` and `text'` up to a 0
  -- in their arrays, arrive for two workers. When each worker
  -- handles its bytes before the other receives, the service is given the first order and then
  -- the second. When both receive before either handles its bytes, the service is given the
  -- second order twice and the first one never, since the workers share one buffer.
  pub shared_buffer :
      (text text' : List ℕ) (o o' : OrderMessage) (ns ns' : ℕ) (s : Server D)
      → IsTaken text o
      → IsTaken text' o'
      → s.services MessageType.order_new ≡ some order_service
      → (run_schedule F
            (receives (encode_order o)
              ∷ processes order_size ns
              ∷ receives (encode_order o')
              ∷ processes order_size ns'
              ∷ [])
            s
          ≡ some (
              taken text' o' ns'
                (fill (encode_order o') (taken text o ns (fill (encode_order o) s)))))
        × (run_schedule F
              (receives (encode_order o)
                ∷ receives (encode_order o')
                ∷ processes order_size ns
                ∷ processes order_size ns'
                ∷ [])
              s
            ≡ some (
                taken text' o' ns'
                  (taken text' o' ns (fill (encode_order o') (fill (encode_order o) s)))))
  unfolding act
  shared_buffer text text' o o' ns ns' s k k' service = (
    run_step _ _ _ refl
        ∙ run_step _ _ _ (process_order_filled text o ns s k service)
        ∙ run_step _ _ _ refl
        ∙ run_step _ _ _ (
            process_order_filled text' o' ns' (taken text o ns (fill bytes s)) k'
              (kept text o ns s service))
        ∙ run_end _,
    run_step _ _ _ refl
        ∙ run_step _ _ _ refl
        ∙ run_step _ _ _
            (process_order_filled text' o' ns (fill bytes s) k' (filled bytes s service))
        ∙ run_step _ _ _ (process_again text' o' ns ns' (fill bytes s) k' (filled bytes s service))
        ∙ run_end _,
  )
    where
      bytes : List ℕ
      bytes = encode_order o
