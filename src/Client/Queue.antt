-- ===== src/Client/Queue.antt =====
-- The queue between `send_message` and the send thread.
use hft.Base.{
  ℕ, ◌+◌, ◌*◌, ◌%◌, ◌^◌, ◌<◌, ◌≡◌, refl, sym, ap, ◌∙◌, true, List, [], ◌∷◌, ◌++◌, some, arith,
  if_true, Bool, length, append_assoc, append-nil,
}
use hft.Message.Types.{Message}
use hft.Message.Codec.{encode_message}
use hft.Client.State.{Client, ClientStats, Effect, sent, is_connected}
use hft.Client.Send.{SendAnswer, send_message, send_front, drain_queue, count_sent}

-- What a `send` that takes every byte answers.
abbrev pub sends_all : Message → SendAnswer
sends_all m = record { bytes_sent = some (length (encode_message m)); reconnects = [] }

abbrev pub all_sent : List Message → List SendAnswer
all_sent [] = []
all_sent (m ∷ ms) = sends_all m ∷ all_sent ms

-- The `send` calls for messages in order; effects stand newest first.
abbrev pub sent_log : ℕ → List Message → List Effect → List Effect
sent_log fd [] es = es
sent_log fd (m ∷ ms) es = sent_log fd ms (sent fd (encode_message m) ∷ es)

abbrev pub count_many : {D : Type 0} → List Message → ClientStats D → ClientStats D
count_many [] s = s
count_many (m ∷ ms) s = count_many ms (count_sent s)

module _ {D : Type 0} where
  -- Messages that are handed over in order.
  unfoldable pub send_all : List Message → Client D → Client D
  send_all [] c = c
  send_all (m ∷ ms) c = send_all ms (send_message m c).0

  pub send_front_lem :
      (m : Message) (fd : ℕ) (c : Client D)
      → is_connected c ≡ true
      → c.socket_fd ≡ some fd
      → send_front m (sends_all m) c
        ≡ record c { stats = count_sent c.stats; effects = sent fd (encode_message m) ∷ c.effects }
  unfolding send_front
  send_front_lem m fd c on e = ground arith

  abbrev after_front : Message → ℕ → Client D → Client D
  after_front m fd c = record c {
    stats = count_sent c.stats;
    effects = sent fd (encode_message m) ∷ c.effects;
  }

  drain_step :
      (m : Message) (q : List Message) (a : SendAnswer) (answers : List SendAnswer) (c : Client D)
      → is_connected c ≡ true
      → c.send_queue ≡ m ∷ q
      → drain_queue (a ∷ answers) c
        ≡ drain_queue answers (send_front m a (record c { send_queue = q }))
  unfolding drain_queue
  drain_step m q a answers c on head = ground arith

  send_connected :
      (m : Message) (c : Client D)
      → is_connected c ≡ true
      → send_message m c
        ≡ (record c { send_queue = c.send_queue ++ m ∷ []; stats = count_sent c.stats }, true)
  unfolding send_message
  send_connected m c on = if_true _ _ on

  -- When every `send` takes its whole message, the send thread empties the queue, in the order in
  -- which the messages stand in it, and counts each.
  pub drain_queue_lem :
      (q : List Message) (fd : ℕ) (c : Client D)
      → is_connected c ≡ true
      → c.socket_fd ≡ some fd
      → c.send_queue ≡ q
      → drain_queue (all_sent q) c ≡ record c {
        send_queue = [];
        stats = count_many q c.stats;
        effects = sent_log fd q c.effects;
      }
  unfolding drain_queue
  drain_queue_lem [] fd c on e empty = λ i. record c { send_queue = empty i }
  drain_queue_lem (m ∷ q) fd c on e head =
      let popped = record c { send_queue = q } in
      drain_step m q (sends_all m) (all_sent q) c on head
      ∙ ap (drain_queue (all_sent q)) (send_front_lem m fd popped on e)
      ∙ drain_queue_lem q fd (after_front m fd popped) on e refl

  send_all_lem :
      (ms : List Message) (c : Client D)
      → is_connected c ≡ true
      → send_all ms c ≡ record c { send_queue = c.send_queue ++ ms; stats = count_many ms c.stats }
  unfolding send_all
  send_all_lem [] c on = λ i. record c { send_queue = sym (append-nil c.send_queue) i }
  send_all_lem (m ∷ ms) c on =
      let pushed = record c { send_queue = c.send_queue ++ m ∷ []; stats = count_sent c.stats } in
      ap (λ (r : Client D × Bool). send_all ms r.0) (send_connected m c on)
      ∙ send_all_lem ms pushed on
      ∙ λ i. record c {
        send_queue = append_assoc c.send_queue (m ∷ []) ms i;
        stats = count_many ms (count_sent c.stats);
      }

  -- Messages handed to a connected client with an empty queue, and then sent by the send thread
  -- with every `send` taking its whole message: the bytes go out in the order of the calls, and
  -- nothing is left in the queue. Both `send_message` and the send thread count, so the counters
  -- `messages_sent` and `bytes_sent` go through every message twice.
  pub queue_fifo :
      (ms : List Message) (fd : ℕ) (c : Client D)
      → is_connected c ≡ true
      → c.socket_fd ≡ some fd
      → c.send_queue ≡ []
      → drain_queue (all_sent ms) (send_all ms c) ≡ record c {
        send_queue = [];
        stats = count_many ms (count_many ms c.stats);
        effects = sent_log fd ms c.effects;
      }
  queue_fifo ms fd c on e empty =
      ap (drain_queue (all_sent ms)) (send_all_lem ms c on)
      ∙ drain_queue_lem ms fd
          (record c { send_queue = c.send_queue ++ ms; stats = count_many ms c.stats }) on e
          (ap (λ (q : List Message). q ++ ms) empty)

  count_many-sent :
      (ms : List Message) (s : ClientStats D) (n : ℕ)
      → s.messages_sent ≡ n % 2 ^ 64
      → (count_many ms s).messages_sent ≡ (n + length ms) % 2 ^ 64
  count_many-sent [] s n h = omega arith
  count_many-sent (m ∷ ms) s n h =
      omega (arith, count_many-sent ms (count_sent s) (n + 1) (omega arith))

  -- When messages are handed to a connected client with an empty queue and a counter below 2^64,
  -- and the send thread then sends each of them once, `messages_sent` has grown by twice their
  -- number, modulo 2^64.
  pub messages_sent_doubled :
      (ms : List Message) (fd : ℕ) (c : Client D)
      → is_connected c ≡ true
      → c.socket_fd ≡ some fd
      → c.send_queue ≡ []
      → c.stats.messages_sent < 2 ^ 64
      → (drain_queue (all_sent ms) (send_all ms c)).stats.messages_sent
        ≡ (c.stats.messages_sent + 2 * length ms) % 2 ^ 64
  messages_sent_doubled ms fd c on e empty fits =
      ap (λ (d : Client D). d.stats.messages_sent) (queue_fifo ms fd c on e empty) ∙ twice
    where
      once : (count_many ms c.stats).messages_sent ≡ (c.stats.messages_sent + length ms) % 2 ^ 64
      once = count_many-sent ms c.stats c.stats.messages_sent (omega arith)

      twice :
          (count_many ms (count_many ms c.stats)).messages_sent
          ≡ (c.stats.messages_sent + 2 * length ms) % 2 ^ 64
      twice = omega (
        arith,
        count_many-sent ms (count_many ms c.stats) (c.stats.messages_sent + length ms) once,
      )
