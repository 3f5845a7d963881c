-- ===== src/System/Orders.antt =====
-- src/hft_tcp_client_simple.cpp with src/hft_server.cpp: the orders of the simple client program, and
-- what the server makes of them.
use hft.Base.{
  All, subst, sym, Bool, Option, overwrite, ℕ, zero, suc, ◌+◌, ◌%◌, ◌^◌, ◌<◌, ◌≡◌, refl, ap, ◌∙◌,
  true, List, [], ◌∷◌, some, arith,
}
use hft.Message.Types.{Message, OrderMessage, OrderSide}
use hft.Message.Layout.{message_size, order_size}
use hft.Message.Codec.{encode_message}
use hft.Server.State.{Server, Connection}
use hft.Server.State as ServerState
use hft.Server.Receive.{Recvs, chunk, would_block, receive_loop}
use hft.Client.State.{Floats}
use hft.SimpleClient.State.{SimpleClient, Effect, sent, is_connected}
use hft.SimpleClient.Send.{create_test_order, order_request, send_order}
use hft.SimpleClient.Receive.{receive_messages}
use hft.SimpleClient.Orders.{order_request-IsEncodable, request_type, send_order_whole}
use hft.Client.Send.{count_sent}
use hft.Server.State.{emit, incomplete}
use hft.Server.Content.{parse, is_readable}
use hft.System.Segments.{Group, messages, group_bytes, segments}
use hft.System.Coalesced.{IsOrder, coalesced, receive_loop-coalesced}
use hft.Server.Delivery.{plain_order_rejected}
use hft.Programs.Arguments.{codes}
use hft.Programs.SimpleClient.{Turn, Session, receive_some, send_turn, send_turns}

-- A turn with nothing received before it and a `send` that takes the whole message.
pub record IsSmooth (x : Turn) : Type 0 where
  pub quiet : x.answers ≡ []
  pub id_fits : x.request_id < 2 ^ 64
  pub now_fits : x.request_now < 2 ^ 64
  pub whole : x.bytes_sent ≡ some message_size

abbrev test_order : ℕ → Turn → OrderMessage
test_order i x =
    create_test_order x.id x.now x.client_order_id (codes "AAPL") OrderSide.buy 100
      ((150000 + i) % 2 ^ 64)

-- The orders of `count` turns from the turn `i` on, as they are sent, and their bytes.
abbrev pub order_messages : ℕ → ℕ → ℕ → (ℕ → Turn) → List Message
order_messages client_id zero i turns = []
order_messages client_id (suc count) i turns =
    order_request (turns i).request_id (turns i).request_now client_id (test_order i (turns i))
    ∷ order_messages client_id count (suc i) turns

abbrev pub encoded : List Message → List (List ℕ)
encoded [] = []
encoded (m ∷ ms) = encode_message m ∷ encoded ms

abbrev pub order_bytes : ℕ → ℕ → ℕ → (ℕ → Turn) → List (List ℕ)
order_bytes client_id count i turns = encoded (order_messages client_id count i turns)

-- Each of the byte strings arrives with a `recv` of its own.
abbrev pub arrivals : ℕ → List (List ℕ) → Recvs
arrivals ns [] = would_block
arrivals ns (bs ∷ bss) = chunk bs ns (arrivals ns bss)

abbrev pub sends_after : ℕ → List (List ℕ) → List Effect → List Effect
sends_after fd [] es = es
sends_after fd (bs ∷ bss) es = sends_after fd bss (sent fd bs ∷ es)

-- As many incomplete orders that the server reports.
abbrev pub incompletes : ℕ → List ServerState.Effect → List ServerState.Effect
incompletes zero es = es
incompletes (suc n) es = incompletes n (incomplete message_size order_size ∷ es)

module _ {D : Type 0} (F : Floats D) where
  receive_nothing :
      (x : Turn) (s : Session D)
      → IsSmooth x
      → is_connected s.client ≡ true
      → s.receiving ≡ true
      → receive_some F x.answers s ≡ some s
  unfolding receive_some receive_messages
  receive_nothing x s k on there =
      ap (λ answers. receive_some F answers s) k.quiet ∙ ground (arith, on, there)

  -- The session after an order has been sent.
  abbrev after_order : ℕ → ℕ → Turn → Session D → Session D
  after_order fd i x s = record s {
    client = record client {
      stats = count_sent client.stats;
      effects =
          sent fd (
            encode_message
              (order_request x.request_id x.request_now client.client_id (test_order i x)))
          ∷ client.effects;
    };
  }
    where
      open s use {client}

  send_turn_smooth :
      (fd i : ℕ) (x : Turn) (s : Session D)
      → IsSmooth x
      → is_connected s.client ≡ true
      → s.client.socket_fd ≡ some fd
      → send_turn F i x s ≡ after_order fd i x s
  unfolding send_turn
  send_turn_smooth fd i x s k on sock =
      ap
        (λ (answer : Option ℕ). record s {
          client = (send_order x.request_id x.request_now (test_order i x) answer s.client).0;
        })
        k.whole
      ∙ ap (λ (r : SimpleClient D × Bool). record s { client = r.0 })
          (send_order_whole x.request_id x.request_now fd (test_order i x) s.client on sock)

  send_turns_smooth :
      (n i fd : ℕ) (turns : ℕ → Turn) (s : Session D)
      → ((j : ℕ) → IsSmooth (turns j))
      → is_connected s.client ≡ true
      → s.client.socket_fd ≡ some fd
      → s.receiving ≡ true
      → s.client.stats.messages_sent < 2 ^ 64
      → (u : Session D) × (send_turns F n i turns s ≡ some u)
        × (u.client.effects
            ≡ sends_after fd (order_bytes s.client.client_id n i turns) s.client.effects)
        × (u.client.stats.messages_sent ≡ (s.client.stats.messages_sent + n) % 2 ^ 64)
  unfolding send_turns
  send_turns_smooth zero i fd turns s k on sock there fits = (s, refl, refl, omega arith)
  send_turns_smooth (suc n) i fd turns s k on sock there fits =
      let next = after_order fd i (turns i) s in
      let (u, run, wire, count) =
        send_turns_smooth n (suc i) fd turns next k on sock there (omega arith) in
      (
        u,
        ground (arith, receive_nothing (turns i) s (k i) on there)
            ∙ ap (λ v. send_turns F n (suc i) turns v)
                (send_turn_smooth fd i (turns i) s (k i) on sock)
            ∙ run,
        wire,
        omega (arith, count),
      )

module _ {E : Type 0} (G : ServerState.Floats E) where
  orders_rejected :
      (n i client_id ns : ℕ) (turns : ℕ → Turn) (conn : Connection) (s : Server E)
      → ((j : ℕ) → IsSmooth (turns j))
      → client_id < 2 ^ 32
      → (t : Server E) × (receive_loop G conn (arrivals ns (order_bytes client_id n i turns)) s
          ≡ some t)
        × (t.stats ≡ s.stats)
        × (t.effects ≡ incompletes n s.effects)
  unfolding receive_loop
  orders_rejected zero i client_id ns turns conn s k fits = (s, refl, refl, refl)
  orders_rejected (suc n) i client_id ns turns conn s k fits =
      let x = turns i in
      let request = order_request x.request_id x.request_now client_id (test_order i x) in
      let rejected =
        plain_order_rejected G ns s request
          (order_request-IsEncodable x.request_id x.request_now client_id (test_order i x)
            (k i).id_fits (k i).now_fits fits)
          (request_type x.request_id x.request_now client_id (test_order i x)) in
      let after =
        emit (incomplete message_size order_size)
          (record s { recv_buffer = overwrite s.recv_buffer (encode_message request) }) in
      let (t, run, same, told) = orders_rejected n (suc i) client_id ns turns conn after k fits in
      (t, ground (arith, rejected, run), same, told)

order_messages-IsOrder :
    (client_id n i : ℕ) (turns : ℕ → Turn)
    → ((j : ℕ) → IsSmooth (turns j))
    → client_id < 2 ^ 32
    → All IsOrder (order_messages client_id n i turns)
order_messages-IsOrder client_id zero i turns k fits = tt
order_messages-IsOrder client_id (suc n) i turns k fits =
    let x = turns i in
    (
      record {
        encodable =
            order_request-IsEncodable x.request_id x.request_now client_id (test_order i x)
              (k i).id_fits (k i).now_fits fits;
        of_order_type = request_type x.request_id x.request_now client_id (test_order i x);
      },
      order_messages-IsOrder client_id n (suc i) turns k fits,
    )

module _ {D E : Type 0} (F : Floats D) (G : ServerState.Floats E) where
  -- The loop of the simple client program, with a client that is connected, a client id below 2^32
  -- and a counter below 2^64, when nothing is received and every `send` takes a whole message, for
  -- ids and times below 2^64: it sends an order in each turn, and counts each of them as sent,
  -- modulo 2^64. A server that gets each order with a `recv` of its own goes through its receive
  -- loop without a fault, reports each of them as incomplete, and counts none: its statistics are
  -- what they were. A server with a counter below 2^64 that gets them in any groups of whole
  -- messages, each with one `recv` and readable by itself, counts one message, modulo 2^64, for each
  -- group of more than one order.
  pub orders_sent_and_not_counted :
      (n i fd ns : ℕ) (turns : ℕ → Turn) (s : Session D) (conn : Connection) (server : Server E)
      (gs : List Group)
      → ((j : ℕ) → IsSmooth (turns j))
      → s.client.client_id < 2 ^ 32
      → is_connected s.client ≡ true
      → s.client.socket_fd ≡ some fd
      → s.receiving ≡ true
      → s.client.stats.messages_sent < 2 ^ 64
      → server.stats.total_messages_processed < 2 ^ 64
      → messages gs ≡ order_messages s.client.client_id n i turns
      → All (λ (g : Group). is_readable (parse (group_bytes g)) ≡ true) gs
      → let bytes = order_bytes s.client.client_id n i turns in
        ((u : Session D) × (send_turns F n i turns s ≡ some u)
          × (u.client.effects ≡ sends_after fd bytes s.client.effects)
          × (u.client.stats.messages_sent ≡ (s.client.stats.messages_sent + n) % 2 ^ 64))
        × ((t : Server E) × (receive_loop G conn (arrivals ns bytes) server ≡ some t)
            × (t.stats ≡ server.stats)
            × (t.effects ≡ incompletes n server.effects))
        × ((t : Server E) × (receive_loop G conn (segments ns gs) server ≡ some t)
            × (t.stats.total_messages_processed
                ≡ (server.stats.total_messages_processed + coalesced gs) % 2 ^ 64))
  orders_sent_and_not_counted n i fd ns turns s conn server gs k id_fits on sock there fits below
        same readable =
      (
        send_turns_smooth F n i fd turns s k on sock there fits,
        orders_rejected G n i s.client.client_id ns turns conn server k id_fits,
        receive_loop-coalesced G conn ns gs server
            (subst (All IsOrder) (sym same)
              (order_messages-IsOrder s.client.client_id n i turns k id_fits))
            readable below,
      )
