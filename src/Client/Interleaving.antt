-- ===== src/Client/Interleaving.antt =====
-- src/hft_tcp_client.cpp: the queue between the threads that send messages and the send thread, which
-- gives its lock back while it sends. A step is what happens under the lock, or between two.
use hft.Base.{
  ℕ, ◌≡◌, refl, sym, ap, ◌∙◌, Bool, true, List, [], ◌∷◌, ◌++◌, arith, append_assoc, append-nil,
  Option,
}
use hft.Message.Types.{Message}
use hft.Client.State.{Client, is_connected}
use hft.Client.Connect.{ConnectAnswers, connect, disconnect, handle_disconnection}
use hft.Client.Send.{SendAnswer, send_message, send_front}
use hft.Client.SameQueue.{
  chunks, part, is_whole, bytes_taken, goes_out, SameQueue, connect-SameQueue, disconnect-SameQueue,
  handle_disconnection-SameQueue, IsSent, send_front-IsSent,
}

-- The client, and the message that the send thread has taken from the queue and not yet sent.
pub record Sending (D : Type 0) : Type 0 where
  pub client : Client D
  pub in_flight : List Message

-- A message that the send thread has given to `send_data`.
pub record Try : Type 0 where
  pub message : Message
  pub bytes : Option ℕ  -- what `send` took
  pub reported : Bool  -- the result of `send_data`

abbrev pub tried : List Try → List Message
tried [] = []
tried (x ∷ ts) = x.message ∷ tried ts

-- What went out of them.
abbrev pub delivered : List Try → List (List ℕ)
delivered [] = []
delivered (x ∷ ts) = part x.message x.bytes ++ delivered ts

-- Whether each was reported as sent, and whether each went out whole.
abbrev pub reports : List Try → List Bool
reports [] = []
reports (x ∷ ts) = x.reported ∷ reports ts

abbrev pub wholes : List Try → List Bool
wholes [] = []
wholes (x ∷ ts) = is_whole x.message x.bytes ∷ wholes ts

-- The turn of the send thread for `m`.
abbrev pub attempt : {D : Type 0} → Message → SendAnswer → Client D → Try
attempt m a c = record { message = m; bytes = bytes_taken a c; reported = goes_out m a c }

tried-append : (ts us : List Try) → tried (ts ++ us) ≡ tried ts ++ tried us
tried-append [] us = refl
tried-append (x ∷ ts) us = ap (◌∷◌ x.message) (tried-append ts us)

delivered-append : (ts us : List Try) → delivered (ts ++ us) ≡ delivered ts ++ delivered us
delivered-append [] us = refl
delivered-append (x ∷ ts) us =
    let out = part x.message x.bytes in
    ap (λ l. out ++ l) (delivered-append ts us)
    ∙ sym (append_assoc out (delivered ts) (delivered us))

same_reports :
    (ts : List Try) (x : Try)
    → reports ts ≡ wholes ts
    → x.reported ≡ is_whole x.message x.bytes
    → reports (ts ++ x ∷ []) ≡ wholes (ts ++ x ∷ [])
same_reports [] x p q = ap (λ b. b ∷ []) q
same_reports (y ∷ ts) x p q = grind (arith, q, same_reports ts x, p)

put_behind :
    (i q ms t f p : List Message) (m : Message)
    → i ++ (q ++ ms) ≡ t ++ (f ++ p)
    → i ++ (q ++ (ms ++ m ∷ [])) ≡ t ++ (f ++ (p ++ m ∷ []))
put_behind i q ms t f p m h =
    ap (λ l. i ++ l) (sym (append_assoc q ms (m ∷ [])))
    ∙ sym (append_assoc i (q ++ ms) (m ∷ []))
    ∙ ap (λ l. l ++ m ∷ []) h
    ∙ append_assoc t (f ++ p) (m ∷ [])
    ∙ ap (λ l. t ++ l) (append_assoc f p (m ∷ []))

module _ {D : Type 0} where
  -- A run of the threads from `s` on, with the messages that `send_message` has queued and those
  -- that the send thread has tried, in order and with the result.
  pub data Run (s : Sending D) : List Message → List Try → Sending D → Type 0 where
    here : Run s [] [] s
    -- A thread that sends a message, at a client that is connected.
    queues :
        {ms : List Message} {ts : List Try} {t : Sending D}
        → Run s ms ts t
        → (m : Message) → is_connected t.client ≡ true
        → Run s (ms ++ m ∷ []) ts (record t { client = (send_message m t.client).0 })
    -- The send thread takes the front message, under the lock.
    pops :
        {ms : List Message} {ts : List Try} {t : Sending D} {rest : List Message}
        → Run s ms ts t
        → (m : Message) → t.client.send_queue ≡ m ∷ rest
        → is_connected t.client ≡ true
        → t.in_flight ≡ []
        → Run s ms ts
            (record { client = record t.client { send_queue = rest }; in_flight = m ∷ [] })
    -- It sends the message that it has, without the lock.
    sends :
        {ms : List Message} {ts : List Try} {t : Sending D}
        → Run s ms ts t
        → (m : Message) (a : SendAnswer) → t.in_flight ≡ m ∷ []
        → Run s ms
            (ts ++ attempt m a t.client ∷ [])
            (record { client = send_front m a t.client; in_flight = [] })
    -- What other threads do to the connection.
    connects :
        {ms : List Message} {ts : List Try} {t : Sending D}
        → Run s ms ts t
        → (a : ConnectAnswers) → Run s ms ts (record t { client = (connect a t.client).0 })
    disconnects :
        {ms : List Message} {ts : List Try} {t : Sending D}
        → Run s ms ts t
        → Run s ms ts (record t { client = disconnect t.client })
    loses :
        {ms : List Message} {ts : List Try} {t : Sending D}
        → Run s ms ts t
        → (answers : List ConnectAnswers)
        → Run s ms ts (record t { client = (handle_disconnection answers t.client).0 })

  -- Every message is where it should be, what has gone out is what `send` took of them, and those
  -- that went out whole are those that were reported as sent.
  pub record IsFifo (s : Sending D) (ms : List Message) (ts : List Try) (t : Sending D)
      : Type 0 where
    pub in_order :
        s.in_flight ++ (s.client.send_queue ++ ms)
        ≡ tried ts ++ (t.in_flight ++ t.client.send_queue)
    pub on_wire : chunks t.client.effects ≡ chunks s.client.effects ++ delivered ts
    pub as_reported : reports ts ≡ wholes ts

  kept-IsFifo :
      (s t : Sending D) (d : Client D) (ms : List Message) (ts : List Try)
      → SameQueue t.client d
      → IsFifo s ms ts t
      → IsFifo s ms ts (record t { client = d })
  kept-IsFifo s t d ms ts k v = record {
    in_order = v.in_order ∙ ap (λ q. tried ts ++ (t.in_flight ++ q)) (sym k.queue);
    on_wire = k.wire ∙ v.on_wire;
    as_reported = v.as_reported;
  }

  queued-IsFifo :
      (s t : Sending D) (ms : List Message) (ts : List Try) (m : Message)
      → is_connected t.client ≡ true
      → IsFifo s ms ts t
      → IsFifo s (ms ++ m ∷ []) ts (record t { client = (send_message m t.client).0 })
  unfolding send_message
  queued-IsFifo s t ms ts m on v = record {
    in_order =
        put_behind s.in_flight s.client.send_queue ms (tried ts) t.in_flight t.client.send_queue m
          v.in_order
        ∙ ap (λ q. tried ts ++ (t.in_flight ++ q)) (sym after.0);
    on_wire = ap chunks after.1 ∙ v.on_wire;
    as_reported = v.as_reported;
  }
    where
      after :
          ((send_message m t.client).0.send_queue ≡ t.client.send_queue ++ m ∷ [])
          × ((send_message m t.client).0.effects ≡ t.client.effects)
      after = (ground (arith, on), ground (arith, on))

  popped-IsFifo :
      (s t : Sending D) (ms rest : List Message) (ts : List Try) (m : Message)
      → t.client.send_queue ≡ m ∷ rest
      → t.in_flight ≡ []
      → IsFifo s ms ts t
      → IsFifo s ms ts
          (record { client = record t.client { send_queue = rest }; in_flight = m ∷ [] })
  popped-IsFifo s t ms rest ts m front idle v = record {
    in_order = v.in_order ∙ ap (λ l. tried ts ++ l) (λ i. idle i ++ front i);
    on_wire = v.on_wire;
    as_reported = v.as_reported;
  }

  sent-IsFifo :
      (s t : Sending D) (ms : List Message) (ts : List Try) (m : Message) (a : SendAnswer)
      → t.in_flight ≡ m ∷ []
      → IsFifo s ms ts t
      → IsFifo s ms
          (ts ++ attempt m a t.client ∷ [])
          (record { client = send_front m a t.client; in_flight = [] })
  sent-IsFifo s t ms ts m a taken v = record {
    in_order =
        v.in_order
        ∙ ap (λ f. tried ts ++ (f ++ t.client.send_queue)) taken
        ∙ sym (append_assoc (tried ts) (m ∷ []) t.client.send_queue)
        ∙ ap (λ l. l ++ t.client.send_queue) (sym (tried-append ts one))
        ∙ ap (λ q. tried (ts ++ one) ++ q) (sym k.queue);
    on_wire =
        k.wire
        ∙ ap (λ l. l ++ out) v.on_wire
        ∙ append_assoc (chunks s.client.effects) (delivered ts) out
        ∙ ap (λ l. chunks s.client.effects ++ (delivered ts ++ l)) (sym (append-nil out))
        ∙ ap (λ l. chunks s.client.effects ++ l) (sym (delivered-append ts one));
    as_reported = same_reports ts (attempt m a t.client) v.as_reported k.reported;
  }
    where
      k : IsSent m a t.client (send_front m a t.client)
      k = send_front-IsSent m a t.client

      one : List Try
      one = attempt m a t.client ∷ []

      out : List (List ℕ)
      out = part m (bytes_taken a t.client)

  -- However the threads that send, the send thread and what happens to the connection interleave,
  -- with any answers of the system: the messages that were there and then those that were queued
  -- are, in order, those that the send thread has tried, the one that it holds and those in the
  -- queue; none is lost, doubled or overtaken before it is tried. What has gone out is, in order,
  -- for each message that was tried the part that `send` took; and `send_data` reported a message as sent just when `send` took all its bytes.
  pub run-IsFifo :
      (s t : Sending D) (ms : List Message) (ts : List Try) → Run s ms ts t → IsFifo s ms ts t
  run-IsFifo s t ms ts here = record {
    in_order = ap (λ q. s.in_flight ++ q) (append-nil s.client.send_queue);
    on_wire = sym (append-nil (chunks s.client.effects));
    as_reported = refl;
  }
  run-IsFifo s t ms ts (queues {ms = before} {t = u} r m on) =
      queued-IsFifo s u before ts m on (run-IsFifo s u before ts r)
  run-IsFifo s t ms ts (pops {t = u} {rest = rest} r m front on idle) =
      popped-IsFifo s u ms rest ts m front idle (run-IsFifo s u ms ts r)
  run-IsFifo s t ms ts (sends {ts = before} {t = u} r m a taken) =
      sent-IsFifo s u ms before m a taken (run-IsFifo s u ms before r)
  run-IsFifo s t ms ts (connects {t = u} r a) =
      kept-IsFifo s u (connect a u.client).0 ms ts (connect-SameQueue a u.client)
        (run-IsFifo s u ms ts r)
  run-IsFifo s t ms ts (disconnects {t = u} r) =
      kept-IsFifo s u (disconnect u.client) ms ts (disconnect-SameQueue u.client)
        (run-IsFifo s u ms ts r)
  run-IsFifo s t ms ts (loses {t = u} r answers) =
      kept-IsFifo s u (handle_disconnection answers u.client).0 ms ts
        (handle_disconnection-SameQueue answers u.client) (run-IsFifo s u ms ts r)
