-- ===== src/Client/Sharing.antt =====
-- src/hft_tcp_client.cpp: the receive thread and the epoll thread, which receive into one buffer. The
-- turn of either is two steps, the `recv` and what follows it, and the other may step in between.
use hft.Base.{
  Option-cases, inl, inr, ℕ, ◌*◌, ◌≡◌, refl, ap, sym, ◌∙◌, List, [], ◌∷◌, Option, none, some, All,
  arith, length, take, take-append, length-append, overwrite, append-nil, ◌>>=◌, drop,
}
use hft.Message.Types.{Message}
use hft.Message.Layout.{message_size}
use hft.Message.Codec.{encode_message}
use hft.Message.Codec.Extent.{length-encode_message}
use hft.Message.Codec.RoundTrip.{IsEncodable}
use hft.Client.State.{Client, Floats}
use hft.Client.Receive.{process_received_data, count_bytes}
use hft.Client.Framing.{encode_all, handle_all, process_received_data-encode_all}

-- A step of one of the two threads: the bytes that its `recv` puts in the buffer, or what follows,
-- with the number of bytes that its `recv` returned, the steady clock and the other clock.
pub data Action : Type 0 where
  receives : List ℕ → Action
  processes : ℕ → ℕ → (ℕ → ℕ) → Action

pub record Shared (D : Type 0) : Type 0 where
  pub client : Client D
  pub recv_buffer : List ℕ

module _ {D : Type 0} (F : Floats D) where
  unfoldable pub process_filled : ℕ → ℕ → (ℕ → ℕ) → Shared D → Option (Client D)
  unfolding process_received_data count_bytes
  process_filled bytes_received now clock s =
      process_received_data F clock (take bytes_received s.recv_buffer)
        (count_bytes F bytes_received now s.client)

  unfoldable pub act : Action → Shared D → Option (Shared D)
  unfolding process_filled
  act (receives bs) s = some (record s { recv_buffer = overwrite s.recv_buffer bs })
  act (processes bytes_received now clock) s = elim (process_filled bytes_received now clock s) [
    | none ↦ none
    | some c ↦ some (record s { client = c })
  ]

  -- The client after the steps.
  unfoldable pub run_schedule : List Action → Shared D → Option (Client D)
  unfolding act
  run_schedule [] s = some s.client
  run_schedule (a ∷ as') s = elim (act a s) [ none ↦ none | some s' ↦ run_schedule as' s' ]

length-encode_all_same :
    (ms : List Message) → All IsEncodable ms → length (encode_all ms) ≡ length ms * message_size
length-encode_all_same [] ok = refl
length-encode_all_same (m ∷ ms) (ok, oks) = omega (
  arith,
  length-append (encode_message m) (encode_all ms),
  length-encode_message m ok.payload_full,
  length-encode_all_same ms oks,
)

module _ {D : Type 0} (F : Floats D) where
  -- What a thread makes of whole messages.
  abbrev pub handled : ℕ → (ℕ → ℕ) → List Message → Client D → Option (Client D)
  handled now clock ms c = handle_all F clock 0 ms (count_bytes F (length (encode_all ms)) now c)

  process_filled-encode_all :
      (now : ℕ) (clock : ℕ → ℕ) (ms : List Message) (s : Shared D) (buffer : List ℕ)
      → All IsEncodable ms
      → process_filled F
          (length (encode_all ms))
          now
          clock
          (record s { recv_buffer = overwrite buffer (encode_all ms) })
        ≡ handled now clock ms s.client
  unfolding process_filled
  process_filled-encode_all now clock ms s buffer ok =
      ap (λ (l : List ℕ). process_received_data F clock l counted)
        (take-append (length (encode_all ms)) (encode_all ms) (drop (length (encode_all ms)) buffer)
            refl
          ∙ sym (append-nil (encode_all ms)))
      ∙ process_received_data-encode_all F clock ms [] counted ok (omega arith)
    where
      counted : Client D
      counted = count_bytes F (length (encode_all ms)) now s.client

  run-processes :
      (n now : ℕ) (clock : ℕ → ℕ) (as' : List Action) (s : Shared D)
      → run_schedule F (processes n now clock ∷ as') s
        ≡ (process_filled F n now clock s >>= λ c. run_schedule F as' (record s { client = c }))
  unfolding run_schedule act
  run-processes n now clock as' s = elim (Option-cases (process_filled F n now clock s)) [
    | inl lost ↦ ground (arith, lost)
    | inr (c, went) ↦ ground (arith, went)
  ]

  bind_end : (o : Option (Client D)) → (o >>= λ c. some c) ≡ o
  bind_end none = refl
  bind_end (some c) = refl

  -- The last two steps, at a buffer that begins with the bytes of `ns`.
  processed_both :
      (now now' : ℕ) (clock clock' : ℕ → ℕ) (ns : List Message) (s : Shared D) (buffer : List ℕ)
      → All IsEncodable ns
      → run_schedule F
          (processes (length (encode_all ns)) now clock
            ∷ processes (length (encode_all ns)) now' clock'
            ∷ [])
          (record s { recv_buffer = overwrite buffer (encode_all ns) })
        ≡ (handled now clock ns s.client >>= handled now' clock' ns)
  unfolding run_schedule
  processed_both now now' clock clock' ns s buffer ok =
      run-processes n now clock (processes n now' clock' ∷ []) filled
      ∙ ap
          (λ (o : Option (Client D)).
            o >>= λ c. run_schedule F (processes n now' clock' ∷ []) (record filled { client = c }))
          (process_filled-encode_all now clock ns s buffer ok)
      ∙ ap (λ (f : Client D → Option (Client D)). handled now clock ns s.client >>= f)
          (λ i c. last c i)
    where
      n : ℕ
      n = length (encode_all ns)

      filled : Shared D
      filled = record s { recv_buffer = overwrite buffer (encode_all ns) }

      last :
          (c : Client D)
          → run_schedule F (processes n now' clock' ∷ []) (record filled { client = c })
            ≡ handled now' clock' ns c
      last c =
          run-processes n now' clock' [] (record filled { client = c })
          ∙ bind_end _
          ∙ process_filled-encode_all now' clock' ns (record s { client = c }) buffer ok

  one_turn :
      (now : ℕ) (clock : ℕ → ℕ) (ms : List Message) (as' : List Action) (s : Shared D)
      → All IsEncodable ms
      → run_schedule F
          (receives (encode_all ms) ∷ processes (length (encode_all ms)) now clock ∷ as')
          s
        ≡ (handled now clock ms s.client >>= λ c.
            run_schedule F as'
              (record s { client = c; recv_buffer = overwrite s.recv_buffer (encode_all ms) }))
  unfolding run_schedule act
  one_turn now clock ms as' s ok =
      run-processes (length (encode_all ms)) now clock as' filled
      ∙ ap (λ (o : Option (Client D)). o >>= λ c. run_schedule F as' (record filled { client = c }))
          (process_filled-encode_all now clock ms s s.recv_buffer ok)
    where
      filled : Shared D
      filled = record s { recv_buffer = overwrite s.recv_buffer (encode_all ms) }

  last_turn :
      (now : ℕ) (clock : ℕ → ℕ) (ms : List Message) (s : Shared D)
      → All IsEncodable ms
      → run_schedule F
          (receives (encode_all ms) ∷ processes (length (encode_all ms)) now clock ∷ [])
          s
        ≡ handled now clock ms s.client
  unfolding run_schedule
  last_turn now clock ms s ok =
      one_turn now clock ms [] s ok ∙ bind_end (handled now clock ms s.client)

  run-receives :
      (bs : List ℕ) (as' : List Action) (s : Shared D)
      → run_schedule F (receives bs ∷ as') s
        ≡ run_schedule F as' (record s { recv_buffer = overwrite s.recv_buffer bs })
  unfolding run_schedule act
  run-receives bs as' s = refl

  -- Two runs of whole messages whose numbers fit, as many in one as in the other, arrive for the
  -- receive thread and for the epoll thread. When each thread handles its bytes before the other
  -- receives, the client handles the first messages and then the second. When both receive before
  -- either handles its bytes, it handles the second messages twice and the first never, since the
  -- threads share one buffer. A message that faults ends both.
  pub shared_receive_buffer :
      (now now' : ℕ) (clock clock' : ℕ → ℕ) (ms ns : List Message) (s : Shared D)
      → All IsEncodable ms
      → All IsEncodable ns
      → length ms ≡ length ns
      → (run_schedule F
            (receives (encode_all ms)
              ∷ processes (length (encode_all ms)) now clock
              ∷ receives (encode_all ns)
              ∷ processes (length (encode_all ns)) now' clock'
              ∷ [])
            s
          ≡ (handled now clock ms s.client >>= handled now' clock' ns))
        × (run_schedule F
              (receives (encode_all ms)
                ∷ receives (encode_all ns)
                ∷ processes (length (encode_all ms)) now clock
                ∷ processes (length (encode_all ns)) now' clock'
                ∷ [])
              s
            ≡ (handled now clock ns s.client >>= handled now' clock' ns))
  shared_receive_buffer now now' clock clock' ms ns s ok ok' same = (
    one_turn now clock ms _ s ok
        ∙ ap (λ (f : Client D → Option (Client D)). handled now clock ms s.client >>= f)
            (λ i c. last_turn now' clock' ns (record s { client = c; recv_buffer = first }) ok' i),
    run-receives (encode_all ms) _ s
        ∙ run-receives (encode_all ns) _ (record s { recv_buffer = first })
        ∙ ap
            (λ (n : ℕ).
              run_schedule F
                (processes n now clock ∷ processes (length (encode_all ns)) now' clock' ∷ [])
                (record s { recv_buffer = overwrite first (encode_all ns) }))
            same_size
        ∙ processed_both now now' clock clock' ns s first ok',
  )
    where
      first : List ℕ
      first = overwrite s.recv_buffer (encode_all ms)

      same_size : length (encode_all ms) ≡ length (encode_all ns)
      same_size =
          length-encode_all_same ms ok
          ∙ ap (λ (k : ℕ). k * message_size) same
          ∙ sym (length-encode_all_same ns ok')
