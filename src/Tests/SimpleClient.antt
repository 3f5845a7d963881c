-- ===== src/Tests/SimpleClient.antt =====
-- The simple client, at sample messages and answers of the system.
use hft.Base.{
  none, zero, ℕ, ◌-◌, ◌≡◌, refl, [], ◌∷◌, some, arith, ltb, if◌then◌else◌, length-replicate,
}
use hft.Message.Types.{OrderMessage, new_message, new_order_message}
use hft.Client.State.{Client, connected, new_client}
use hft.Client.Receive.{
  process_one as client_process_one, process_message as client_process_message,
}
use hft.SimpleClient.State.{SimpleClient, opened, new_simple_client}
use hft.SimpleClient.Send.{send_order}
use hft.SimpleClient.Receive.{process_one}
use hft.SimpleClient.Orders.{send_order-same_base}
use hft.SimpleClient.Average.{mean, averages_compared}
use hft.Tests.Samples.{client_floats, online, heartbeat, order}

abbrev pub simple : SimpleClient ℕ
unfolding new_simple_client
simple = record (new_simple_client client_floats 7 0) {
  connection_state = connected;
  socket_fd = some 3;
  effects = opened 3 ∷ [];
}

-- As `order` but for the quantity and the price.
abbrev dearer : OrderMessage
unfolding new_order_message new_message
dearer = record order { quantity = 900; price = 250000 }

send_order-same_base_example :
    send_order 5 1000 order (some 1064) simple ≡ send_order 5 1000 dearer (some 1064) simple
unfolding new_order_message new_message
send_order-same_base_example =
    send_order-same_base 5 1000 order dearer (some 1064) simple (length-replicate 1024 zero) refl
      refl refl

-- Both clients after the heartbeat, which they handle at 1700.
abbrev simple_after : SimpleClient ℕ
simple_after = elim (process_one client_floats 1700 heartbeat simple) [ none ↦ simple | some d ↦ d ]

abbrev online_after : Client ℕ
online_after = elim (client_process_one client_floats 1700 heartbeat online) [
  | none ↦ online
  | some d ↦ d
]

averages_compared_example :
    (simple_after.stats.avg_latency_us
      ≡ mean client_floats simple_after.stats.total_latency_ns simple_after.stats.messages_received)
    × (online_after.stats.avg_latency_us ≡ (
        if ltb 0 online.stats.messages_received
        then mean client_floats online_after.stats.total_latency_ns
            (online_after.stats.messages_received - 1)
        else online.stats.avg_latency_us))
unfolding new_simple_client new_client process_one client_process_one client_process_message
    new_message
averages_compared_example =
    averages_compared client_floats 1700 heartbeat (omega arith) simple simple_after online
      online_after (omega arith) (omega arith) refl refl
