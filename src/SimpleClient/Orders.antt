-- ===== src/SimpleClient/Orders.antt =====
-- What becomes of the orders that `send_order` sends.
use Prim.Native.Nat.{min}
use hft.Base.{
  ℕ, zero, ◌≤◌, ◌<◌, ◌^◌, ◌≡◌, refl, ap, sym, ◌∙◌, suc, true, List, [], ◌∷◌, ◌++◌, some, arith,
  length, length-append, length-replicate, length-take, length-drop, Option, take, take-append,
  drop, overwrite, append-nil,
}
use hft.Message.Types.{Message, MessageType, OrderMessage, payload_capacity, new_message}
use hft.Message.Bytes.{type_of_byte, status_of_byte}
use hft.Message.Layout.{message_size, order_size}
use hft.Message.Codec.{encode_base, encode_message, encode_order, encode_order_fields}
use hft.Message.Codec.Extent.{length-encode_base, length-encode_message, length-encode_order}
use hft.Message.Codec.RoundTrip.{IsEncodable}
use hft.Client.Messages.{new_request}
use hft.Client.Send.{count_sent}
use hft.Server.State.{Server, Floats, incomplete, emit}
use hft.Server.Receive.{receive_chunk, is_order_type}
use hft.Server.Delivery.{plain_order_rejected}
use hft.SimpleClient.State.{SimpleClient, sent, is_connected}
use hft.SimpleClient.Send.{order_request, send_message, send_order}

take-append_le : (n : ℕ) (xs ys : List ℕ) → n ≤ length xs → take n (xs ++ ys) ≡ take n xs
take-append_le zero xs ys h = refl
take-append_le (suc n) [] ys h = absurd (omega arith)
take-append_le (suc n) (x ∷ xs) ys h = ap (◌∷◌ x) (take-append_le n xs ys (omega arith))

take_all : (n : ℕ) (xs : List ℕ) → length xs ≡ n → take n xs ≡ xs
take_all n xs h = ap (take n) (sym (append-nil xs)) ∙ take-append n xs [] h

-- The bytes of an order that fit in a payload are bytes of its base.
take-encode_order :
    (o : OrderMessage)
    → length o.payload ≡ payload_capacity
    → take payload_capacity (encode_order o) ≡ take payload_capacity (encode_base o.base)
unfolding encode_order
take-encode_order o full =
    take-append_le payload_capacity (encode_base o.base) (encode_order_fields o)
      (omega (arith, length-encode_base o.base full))

length-overwrite :
    (buffer bs : List ℕ) → length bs ≤ length buffer → length (overwrite buffer bs) ≡ length buffer
length-overwrite buffer bs h =
    omega (arith, length-append bs (drop (length bs) buffer), length-drop (length bs) buffer)

-- The message before the order is copied into it.
abbrev blank : ℕ → ℕ → ℕ → Message
blank id now client_id = new_request id now client_id MessageType.order_new order_size

pub order_request-base :
    (id now client_id : ℕ) (o : OrderMessage)
    → length o.payload ≡ payload_capacity
    → length o.symbol ≡ 16
    → order_request id now client_id o ≡ record (blank id now client_id) {
      payload = overwrite new_message.payload (take payload_capacity (encode_base o.base));
    }
unfolding order_request new_message
order_request-base id now client_id o full sym16 =
    λ i. record (blank id now client_id) { payload = overwrite new_message.payload (copied i) }
  where
    fits : min (length (encode_order o)) payload_capacity ≡ payload_capacity
    fits = omega (arith, length-encode_order o full sym16)

    copied :
        take (min (length (encode_order o)) payload_capacity) (encode_order o)
        ≡ take payload_capacity (encode_base o.base)
    copied = ap (λ (n : ℕ). take n (encode_order o)) fits ∙ take-encode_order o full

length-order_request :
    (id now client_id : ℕ) (o : OrderMessage)
    → length (order_request id now client_id o).payload ≡ payload_capacity
unfolding order_request new_message
length-order_request id now client_id o =
    length-overwrite new_message.payload
      (take (min (length (encode_order o)) payload_capacity) (encode_order o))
      (omega (arith, copied, whole))
    ∙ whole
  where
    whole : length new_message.payload ≡ payload_capacity
    whole = length-replicate 1024 zero

    copied :
        length (take (min (length (encode_order o)) payload_capacity) (encode_order o))
        ≡ min (min (length (encode_order o)) payload_capacity) (length (encode_order o))
    copied = length-take (min (length (encode_order o)) payload_capacity) (encode_order o)

pub order_request-IsEncodable :
    (id now client_id : ℕ) (o : OrderMessage)
    → id < 2 ^ 64
    → now < 2 ^ 64
    → client_id < 2 ^ 32
    → IsEncodable (order_request id now client_id o)
unfolding order_request type_of_byte status_of_byte
order_request-IsEncodable id now client_id o id_fits now_fits client_fits = record {
  message_id_fits = id_fits;
  timestamp_fits = now_fits;
  sequence_number_fits = omega arith;
  message_type_fits = omega arith;
  message_type_storable = refl;
  status_fits = omega arith;
  status_storable = refl;
  source_id_fits = client_fits;
  destination_id_fits = omega arith;
  payload_size_fits = omega arith;
  payload_full = length-order_request id now client_id o;
}

pub request_type :
    (id now client_id : ℕ) (o : OrderMessage)
    → is_order_type (order_request id now client_id o).message_type ≡ true
unfolding order_request
request_type id now client_id o = refl

module _ {D : Type 0} where
  -- Two orders whose `Message` parts are the same, the first with a payload of 1024 bytes and
  -- both with a symbol of 16, are sent as the same bytes with the same effects, whatever `send`
  -- answers: the symbol, the side, the quantity and the prices never leave the client.
  pub send_order-same_base :
      (id now : ℕ) (o o' : OrderMessage) (answer : Option ℕ) (c : SimpleClient D)
      → length o.payload ≡ payload_capacity
      → length o.symbol ≡ 16
      → length o'.symbol ≡ 16
      → o.base ≡ o'.base
      → send_order id now o answer c ≡ send_order id now o' answer c
  unfolding send_order
  send_order-same_base id now o o' answer c full sym16 sym16' same =
      ap (λ (m : Message). send_message m answer c)
        (order_request-base id now c.client_id o full sym16
          ∙ ap
              (λ (b : Message). record (blank id now c.client_id) {
                payload = overwrite new_message.payload (take payload_capacity (encode_base b));
              })
              same
          ∙ sym (order_request-base id now c.client_id o' full' sym16'))
    where
      full' : length o'.payload ≡ payload_capacity
      full' = ap (λ (b : Message). length b.payload) (sym same) ∙ full

  send_message_whole :
      (m : Message) (fd : ℕ) (c : SimpleClient D)
      → is_connected c ≡ true
      → c.socket_fd ≡ some fd
      → length m.payload ≡ payload_capacity
      → send_message m (some message_size) c ≡ (
        record c { stats = count_sent c.stats; effects = sent fd (encode_message m) ∷ c.effects },
        true,
      )
  unfolding send_message
  send_message_whole m fd c on e full =
      ground (arith, take_all message_size (encode_message m) (length-encode_message m full))

  pub send_order_whole :
      (id now fd : ℕ) (o : OrderMessage) (c : SimpleClient D)
      → is_connected c ≡ true
      → c.socket_fd ≡ some fd
      → send_order id now o (some message_size) c ≡ (
        record c {
          stats = count_sent c.stats;
          effects = sent fd (encode_message (order_request id now c.client_id o)) ∷ c.effects;
        },
        true,
      )
  unfolding send_order
  send_order_whole id now fd o c on e =
      send_message_whole (order_request id now c.client_id o) fd c on e
        (length-order_request id now c.client_id o)

module _ {D E : Type 0} (F : Floats E) where
  -- When the simple client is connected and `send` takes a whole `Message`, `send_order` reports
  -- success and counts the message, for a message id and a time below 2^64 and a client id below
  -- 2^32. When those bytes arrive together at the server, it reports an incomplete order and
  -- does nothing else but keep them in its buffer.
  pub order_sent_and_rejected :
      (id now fd latency_ns : ℕ) (o : OrderMessage) (c : SimpleClient D) (s : Server E)
      → id < 2 ^ 64
      → now < 2 ^ 64
      → c.client_id < 2 ^ 32
      → is_connected c ≡ true
      → c.socket_fd ≡ some fd
      → let bytes = encode_message (order_request id now c.client_id o) in
        (send_order id now o (some message_size) c
          ≡ (record c { stats = count_sent c.stats; effects = sent fd bytes ∷ c.effects }, true))
        × (receive_chunk F bytes latency_ns s
            ≡ some (
                emit
                  (incomplete message_size order_size)
                  (record s { recv_buffer = overwrite s.recv_buffer bytes })))
  order_sent_and_rejected id now fd latency_ns o c s id_fits now_fits client_fits on e = (
    send_order_whole id now fd o c on e,
    plain_order_rejected F latency_ns s (order_request id now c.client_id o)
        (order_request-IsEncodable id now c.client_id o id_fits now_fits client_fits)
        (request_type id now c.client_id o),
  )
