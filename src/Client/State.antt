-- ===== src/Client/State.antt =====
-- inc/hft_tcp_client.h: the state of `HFTTCPClient`. The fd -1 is `none`. `double` is a parameter.
use hft.Base.{ℕ, ◌+◌, ◌-◌, ◌%◌, ◌^◌, Bool, true, false, List, [], ◌∷◌, Option, none}
use hft.Message.Types.{Message, OrderMessage, MarketDataMessage}
use hft.Server.State.{SocketOption}

pub data ConnectionState : Type 0 where
  disconnected connecting connected reconnecting error : ConnectionState

-- The operations of `double` that the averages use.
pub record Floats (D : Type 0) : Type 0 where
  pub zero_double : D
  pub of_count : ℕ → D
  pub divide : D → D → D
  pub thousand : D  -- 1000.0

pub record ClientStats (D : Type 0) : Type 0 where
  pub messages_sent : ℕ
  pub messages_received : ℕ
  pub bytes_sent : ℕ
  pub bytes_received : ℕ
  pub connection_attempts : ℕ
  pub reconnection_attempts : ℕ
  pub errors : ℕ
  pub min_latency_ns : ℕ
  pub max_latency_ns : ℕ
  pub total_latency_ns : ℕ
  pub avg_latency_us : D
  pub start_time : ℕ
  pub last_message_time : ℕ

-- What the client does to its descriptors, and the handlers that it calls. `send` has the bytes.
pub data Effect : Type 0 where
  opened : ℕ → Effect
  closed : ℕ → Effect
  option_set : ℕ → SocketOption → Effect
  made_non_blocking : ℕ → Effect
  sent : ℕ → List ℕ → Effect
  message_handled : Message → Effect
  order_handled : OrderMessage → Effect
  market_data_handled : MarketDataMessage → Effect
  slept : ℕ → Effect  -- milliseconds

pub record Client (D : Type 0) : Type 0 where
  pub client_id : ℕ  -- uint32_t
  pub connection_state : ConnectionState
  pub socket_fd : Option ℕ
  pub epoll_fd : Option ℕ
  pub running : Bool
  pub send_queue : List Message  -- front first
  pub has_message_handler : Bool
  pub has_order_handler : Bool
  pub has_market_data_handler : Bool
  pub auto_reconnect : Bool
  pub reconnect_interval_ms : ℕ
  pub heartbeat_interval_ms : ℕ
  pub stats : ClientStats D
  pub latency_measurements : List ℕ  -- oldest first
  pub effects : List Effect  -- newest first

abbrev pub u64 : ℕ → ℕ
u64 n = n % 2 ^ 64

-- `a += b` and `a++` on uint64_t.
abbrev pub add64 : ℕ → ℕ → ℕ
add64 a b = u64 (a + b)

-- `a - b` on uint64_t.
abbrev pub sub64 : ℕ → ℕ → ℕ
sub64 a b = (a + 2 ^ 64 - b) % 2 ^ 64

abbrev pub is_connected_state : ConnectionState → Bool
is_connected_state ConnectionState.connected = true
is_connected_state _ = false

abbrev pub is_disconnected_state : ConnectionState → Bool
is_disconnected_state ConnectionState.disconnected = true
is_disconnected_state _ = false

module _ {D : Type 0} where
  abbrev pub emit : Effect → Client D → Client D
  emit e c = record c { effects = e ∷ c.effects }

  abbrev pub is_connected : Client D → Bool
  is_connected c = is_connected_state c.connection_state

  abbrev pub get_stats : Client D → ClientStats D
  get_stats c = c.stats

  -- `is_callable` is whether the function that is set can be called.
  unfoldable pub set_message_handler : Bool → Client D → Client D
  set_message_handler is_callable c = record c { has_message_handler = is_callable }

  unfoldable pub set_order_handler : Bool → Client D → Client D
  set_order_handler is_callable c = record c { has_order_handler = is_callable }

  unfoldable pub set_market_data_handler : Bool → Client D → Client D
  set_market_data_handler is_callable c = record c { has_market_data_handler = is_callable }

  unfoldable pub set_auto_reconnect : Bool → ℕ → Client D → Client D
  set_auto_reconnect enable interval_ms c = record c {
    auto_reconnect = enable;
    reconnect_interval_ms = interval_ms;
  }

  unfoldable pub set_heartbeat_interval : ℕ → Client D → Client D
  set_heartbeat_interval interval_ms c = record c { heartbeat_interval_ms = interval_ms }

module _ {D : Type 0} (F : Floats D) where
  -- `ClientStats{}`, with both times set to `now` as after a reset.
  abbrev pub new_stats : ℕ → ClientStats D
  new_stats now = record {
    messages_sent = 0;
    messages_received = 0;
    bytes_sent = 0;
    bytes_received = 0;
    connection_attempts = 0;
    reconnection_attempts = 0;
    errors = 0;
    min_latency_ns = 2 ^ 64 - 1;
    max_latency_ns = 0;
    total_latency_ns = 0;
    avg_latency_us = F.zero_double;
    start_time = now;
    last_message_time = now;
  }

  unfoldable pub new_client : ℕ → ℕ → Client D
  new_client client_id now = record {
    client_id = client_id;
    connection_state = ConnectionState.disconnected;
    socket_fd = none;
    epoll_fd = none;
    running = false;
    send_queue = [];
    has_message_handler = false;
    has_order_handler = false;
    has_market_data_handler = false;
    auto_reconnect = true;
    reconnect_interval_ms = 1000;
    heartbeat_interval_ms = 1000;
    stats = new_stats now;
    latency_measurements = [];
    effects = [];
  }

  unfoldable pub reset_stats : ℕ → Client D → Client D
  reset_stats now c = record c { stats = new_stats now; latency_measurements = [] }
