-- ===== src/SimpleClient/State.antt =====
-- src/hft_tcp_client_simple.cpp: the state of `HFTTCPClientSimple`. The fd -1 is `none`.
use hft.Base.{ℕ, List, [], ◌∷◌, Option, none, Bool}
use hft.Message.Types.{Message, OrderMessage, MarketDataMessage}
use hft.Server.State.{SocketOption}
use hft.Client.State.{ConnectionState, ClientStats, Floats, is_connected_state, new_stats}

-- What the client does to its descriptors, and what it writes to the console for a message.
pub data Effect : Type 0 where
  opened closed : ℕ → Effect
  option_set : ℕ → SocketOption → Effect
  made_non_blocking : ℕ → Effect
  sent : ℕ → List ℕ → Effect
  message_shown : Message → Effect
  order_shown : OrderMessage → Effect
  market_data_shown : MarketDataMessage → Effect
  heartbeat_shown : Effect
  slept_us : ℕ → Effect

pub record SimpleClient (D : Type 0) : Type 0 where
  pub client_id : ℕ  -- uint32_t
  pub connection_state : ConnectionState
  pub socket_fd : Option ℕ
  pub stats : ClientStats D
  pub latency_measurements : List ℕ  -- oldest first
  pub effects : List Effect  -- newest first

module _ {D : Type 0} where
  abbrev pub emit : Effect → SimpleClient D → SimpleClient D
  emit e c = record c { effects = e ∷ c.effects }

  abbrev pub is_connected : SimpleClient D → Bool
  is_connected c = is_connected_state c.connection_state

module _ {D : Type 0} (F : Floats D) where
  unfoldable pub new_simple_client : ℕ → ℕ → SimpleClient D
  new_simple_client client_id now = record {
    client_id = client_id;
    connection_state = ConnectionState.disconnected;
    socket_fd = none;
    stats = new_stats F now;
    latency_measurements = [];
    effects = [];
  }

  unfoldable pub reset_stats : ℕ → SimpleClient D → SimpleClient D
  reset_stats now c = record c { stats = new_stats F now; latency_measurements = [] }
