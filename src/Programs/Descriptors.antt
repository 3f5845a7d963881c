-- ===== src/Programs/Descriptors.antt =====
-- src/hft_tcp_client_simple.cpp: what the simple client program leaves open.
use Prim.Native.String.{String}
use hft.Base.{
  ℕ, zero, suc, ◌≡◌, ◌⊎◌, refl, subst, inl, inr, Bool, true, false, List, none, some, arith,
  Bool-cases, Option-cases,
}
use hft.Server.Descriptors.{count}
use hft.Client.State.{Floats}
use hft.Client.Connect.{ConnectAnswers}
use hft.SimpleClient.State.{SimpleClient, new_simple_client}
use hft.SimpleClient.Link.{connect, disconnect}
use hft.SimpleClient.Send.{send_order}
use hft.SimpleClient.Receive.{RecvAnswer, Outcome, waiting, left, fault, receive_messages}
use hft.SimpleClient.Keeps.{open_fds}
use hft.SimpleClient.Life.{
  state_of, Run, here, next, connects, disconnects, sends, receives, disconnect_closes_all,
}
use hft.Programs.Options.{
  SimpleConfig, Read, simple_defaults, simple_option, configured, usage_shown, uncaught_exception,
  parse_options,
}
use hft.Programs.SimpleClient.{
  Turn, Session, returned, receive_some, send_turn, send_turns, simple_client, simple_client_main,
}

abbrev session : {D : Type 0} → SimpleClient D → Bool → Session D
session c on = record { client = c; receiving = on }

module _ {D : Type 0} (F : Floats D) (id now : ℕ) where
  Reached : SimpleClient D → Type 0
  Reached c = Run F (new_simple_client F id now) c

  receive_some-Reached :
      (answers : List RecvAnswer) (s u : Session D)
      → Reached s.client
      → receive_some F answers s ≡ some u
      → Reached u.client
  unfolding receive_some Reached
  receive_some-Reached answers s u r e = elim (Bool-cases s.receiving) [
    | inr off ↦ subst Reached {x = s.client} {y = u.client} (ground (arith, e, off)) r
    | inl on ↦
        next r
          (receives answers (outcome (receive_messages F answers s.client) (ground (arith, e, on))))
  ]
    where
      outcome :
          (o : Outcome D)
          → (elim o [
            | waiting c ↦ some (session c true)
            | left c ↦ some (session c false)
            | fault ↦ none
          ])
            ≡ some u
          → state_of F o ≡ some u.client
      outcome (waiting c) e = ground (arith, e)
      outcome (left c) e = ground (arith, e)
      outcome fault e = absurd (ground (arith, e))

  send_turn-Reached :
      (i : ℕ) (x : Turn) (s : Session D) → Reached s.client → Reached (send_turn F i x s).client
  unfolding send_turn send_order Reached
  send_turn-Reached i x s r = next r (sends _ x.bytes_sent)

  send_turns-Reached :
      (n i : ℕ) (turns : ℕ → Turn) (s u : Session D)
      → Reached s.client
      → send_turns F n i turns s ≡ some u
      → Reached u.client
  unfolding send_turns
  send_turns-Reached zero i turns s u r e =
      subst (λ (v : Session D). Reached v.client) {x = s} {y = u} (ground (arith, e)) r
  send_turns-Reached (suc n) i turns s u r e =
      elim (Option-cases (receive_some F (turns i).answers s)) [
        | inl lost ↦ absurd (ground (arith, e, lost))
        | inr (v, got) ↦
            send_turns-Reached n (suc i) turns (send_turn F i (turns i) v) u
              (send_turn-Reached i (turns i) v (receive_some-Reached (turns i).answers s v r got))
              (ground (arith, e, got))
      ]

module _ {D : Type 0} (F : Floats D) where
  new_client : SimpleConfig → ℕ → SimpleClient D
  new_client config now = new_simple_client F config.client_id now

  -- The client at the end is one that has been disconnected after a run.
  simple_client-Run :
      (config : SimpleConfig) (now : ℕ) (a : ConnectAnswers) (turns : ℕ → Turn)
      (last : List RecvAnswer) (n : ℕ) (u : SimpleClient D)
      → simple_client F config now a turns last ≡ returned n u
      → (c : SimpleClient D) × Run F (new_client config now) c × (disconnect c ≡ u)
  unfolding simple_client Reached new_client
  simple_client-Run config now a turns last n u e = elim (Bool-cases linked.1) [
    | inr refused ↦ (linked.0, at_start, ground (arith, e, refused))
    | inl on ↦
        elim (Option-cases (send_turns F config.num_messages 0 turns (session linked.0 true))) [
          | inl lost ↦ absurd (ground (arith, e, on, lost))
          | inr (s, sent) ↦ elim (Option-cases (receive_some F last s)) [
            | inl lost ↦ absurd (ground (arith, e, on, sent, lost))
            | inr (v, got) ↦ (
              disconnect v.client,
              next
                  (receive_some-Reached F config.client_id now last s v
                    (send_turns-Reached F config.client_id now config.num_messages 0 turns
                      (session linked.0 true) s at_start sent)
                    got)
                  disconnects,
              ground (arith, e, on, sent, got),
            )
          ]
        ]
  ]
    where
      linked : SimpleClient D × Bool
      linked = connect a (new_client config now)

      at_start : Run F (new_client config now) linked.0
      at_start = next here (connects a)

  Read-cases :
      (r : Read SimpleConfig)
      → (r ≡ usage_shown) ⊎ (r ≡ uncaught_exception) ⊎ ((c : SimpleConfig) × (r ≡ configured c))
  Read-cases (configured c) = inr (inr (c, refl))
  Read-cases usage_shown = inl refl
  Read-cases uncaught_exception = inr (inl refl)

  -- Whenever the simple client program returns with a code, whatever its arguments, the answers of
  -- the system and what it receives are, no descriptor of its client is open.
  pub simple_client_main_closes :
      (args : List String) (now : ℕ) (a : ConnectAnswers) (turns : ℕ → Turn)
      (last : List RecvAnswer) (n : ℕ) (u : SimpleClient D)
      → simple_client_main F args now a turns last ≡ returned n u
      → (x : ℕ) → count x (open_fds u.effects) ≡ 0
  unfolding simple_client_main new_client
  simple_client_main_closes args now a turns last n u e x =
      elim (Read-cases (parse_options simple_option args simple_defaults)) [
        | inl given ↦ absurd (ground (arith, given, e))
        | inr (inl thrown) ↦ absurd (ground (arith, thrown, e))
        | inr (inr (config, read)) ↦
            let (c, r, same) =
              simple_client-Run config now a turns last n u (ground (arith, read, e)) in
            subst (λ (v : SimpleClient D). count x (open_fds v.effects) ≡ 0) same
              (disconnect_closes_all F config.client_id now c r x)
      ]
