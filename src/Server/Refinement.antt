-- ===== src/Server/Refinement.antt =====
-- `handle_client_events` keeps the promise of `Content`.
use hft.Base.{
  sym, ap, Option, Option-cases, ℕ, ◌≡◌, refl, ◌∙◌, true, false, inl, inr, List, ◌++◌, some, arith,
  length, leb, overwrite, drop, Bool-cases,
}
use hft.Message.Layout.{message_size}
use hft.Message.Symbol.{symbol_text, symbol_text-append}
use hft.Server.State.{Server, Floats}
use hft.Server.Receive.{dispatch, receive_chunk, log_all}
use hft.Server.Content.{Content, is_readable, read, parse, log, outcome, settle}
use hft.Server.Dispatch.{type_cases}

module _ {D : Type 0} (F : Floats D) (bs : List ℕ) (latency_ns : ℕ) where
  long_chunk :
      (s : Server D)
      → leb message_size (length bs) ≡ true
      → receive_chunk F bs latency_ns s
        ≡ dispatch F (length bs) latency_ns (record s { recv_buffer = overwrite s.recv_buffer bs })
  unfolding receive_chunk
  long_chunk s big = ground arith

  short_chunk :
      (s : Server D) (text : Option (List ℕ))
      → leb message_size (length bs) ≡ false
      → receive_chunk F bs latency_ns s
        ≡ outcome F bs latency_ns
            (read bs text)
            (record s { recv_buffer = overwrite s.recv_buffer bs })
  unfolding receive_chunk outcome read settle log log_all
  short_chunk s text short = ground arith

  -- One turn of the receive loop, for any bytes. They are read by themselves, but for the text of a
  -- symbol, which is read in the buffer.
  pub receive_chunk-read :
      (s : Server D)
      → receive_chunk F bs latency_ns s
        ≡ outcome F bs latency_ns
            (read bs (symbol_text (overwrite s.recv_buffer bs)))
            (record s { recv_buffer = overwrite s.recv_buffer bs })
  receive_chunk-read s = elim (Bool-cases (leb message_size (length bs))) [
    | inl big ↦
        long_chunk s big
        ∙ type_cases F bs latency_ns (record s { recv_buffer = overwrite s.recv_buffer bs })
            (drop (length bs) s.recv_buffer) refl big
    | inr short ↦ short_chunk s (symbol_text (overwrite s.recv_buffer bs)) short
  ]

  -- Where the bytes are readable, a longer memory shows the same text, or none is needed.
  read-parse :
      (rest : List ℕ)
      → is_readable (parse bs) ≡ true
      → read bs (symbol_text (bs ++ rest)) ≡ parse bs
  unfolding parse read
  read-parse rest h = elim (Option-cases (symbol_text bs)) [
    | inl runs_on ↦ ground arith
    | inr (text, p) ↦ ground (arith, p, symbol_text-append bs rest text p)
  ]

  outcome-readable :
      (c : Content) (s : Server D)
      → is_readable c ≡ true
      → outcome F bs latency_ns c s ≡ some (settle F bs latency_ns c s)
  unfolding outcome
  outcome-readable c s h = ground (arith, h)

  -- When the bytes received are readable by themselves, which for a whole order or market data means
  -- that the symbol, printed as a C string, ends within them, one turn of the receive loop has just
  -- the effects that they stand for: no read goes past the end of the buffer, and no byte of an
  -- earlier message, which the buffer still holds behind them, is looked at.
  pub receive_chunk-parse :
      (s : Server D)
      → is_readable (parse bs) ≡ true
      → receive_chunk F bs latency_ns s
        ≡ some (
            settle F bs latency_ns
              (parse bs)
              (record s { recv_buffer = overwrite s.recv_buffer bs }))
  receive_chunk-parse s h =
      receive_chunk-read s
      ∙ ap (λ c. outcome F bs latency_ns c (record s { recv_buffer = overwrite s.recv_buffer bs }))
          (read-parse (drop (length bs) s.recv_buffer) h)
      ∙ outcome-readable (parse bs) (record s { recv_buffer = overwrite s.recv_buffer bs }) h

  outcome-settle :
      (c : Content) (s t : Server D)
      → outcome F bs latency_ns c s ≡ some t
      → settle F bs latency_ns c s ≡ t
  unfolding outcome
  outcome-settle c s t h = ground (arith, h)

  -- What a turn that does not fault leaves.
  pub receive_chunk-settles :
      (s t : Server D)
      → receive_chunk F bs latency_ns s ≡ some t
      → (c : Content) × (settle F bs latency_ns c
            (record s { recv_buffer = overwrite s.recv_buffer bs })
          ≡ t)
  receive_chunk-settles s t e =
      let c = read bs (symbol_text (overwrite s.recv_buffer bs)) in
      (
        c,
        outcome-settle c (record s { recv_buffer = overwrite s.recv_buffer bs }) t
            (sym (receive_chunk-read s) ∙ e),
      )
