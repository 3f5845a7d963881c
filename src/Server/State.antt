-- ===== src/Server/State.antt =====
-- inc/hft_server.h: a connection, the statistics and the server. The fd -1 is `none`.
use Prim.Native.String.{String}
use hft.Base.{ℕ, ◌+◌, ◌%◌, ◌^◌, Bool, false, List, [], ◌∷◌, Option, none, some, ◌==◌, if◌then◌else◌}
use hft.Message.Types.{MessageType, OrderMessage, MarketDataMessage}
use hft.Message.Bytes.{type_byte}

pub record Address : Type 0 where
  pub ip : ℕ
  pub port : ℕ

pub record Connection : Type 0 where
  pub fd : Option ℕ
  pub addr : Address
  pub last_heartbeat : ℕ  -- steady clock
  pub client_id : ℕ  -- uint64_t
  pub is_authenticated : Bool

-- The constructor `Connection()`; the time point starts at its epoch.
unfoldable pub new_connection : Connection
new_connection = record {
  fd = none;
  addr = record { ip = 0; port = 0 };
  last_heartbeat = 0;
  client_id = 0;
  is_authenticated = false;
}

-- The classes that implement `IMessageService`.
pub data Service : Type 0 where
  order_service market_data_service : Service

-- `double` is a parameter, with the operations that the code uses.
pub record Floats (D : Type 0) : Type 0 where
  pub zero_double : D
  pub of_count : ℕ → D
  pub add : D → D → D
  pub multiply : D → D → D
  pub divide : D → D → D
  pub alpha : D  -- 0.01
  pub rest_of_alpha : D  -- 1.0 - 0.01
  pub thousand : D  -- 1000.0

pub record ServerStats (D : Type 0) : Type 0 where
  pub total_messages_processed : ℕ  -- uint64_t
  pub total_connections : ℕ  -- uint64_t
  pub avg_latency_us : D
  pub peak_connections : ℕ  -- uint64_t

pub data SocketOption : Type 0 where
  reuse_addr keep_alive : SocketOption
  tcp_o_ndelay tcp_one : SocketOption  -- IPPROTO_TCP with the option number O_NDELAY, and with 1
  send_buffer_size recv_buffer_size : ℕ → SocketOption

-- What the server does to its descriptors, its threads and its console, as it does it.
pub data Effect : Type 0 where
  opened : ℕ → Effect
  closed : Option ℕ → Effect
  option_set : ℕ → SocketOption → Effect
  made_non_blocking : ℕ → Effect
  watched unwatched : Option ℕ → Effect  -- EPOLL_CTL_ADD, EPOLL_CTL_DEL
  joined : ℕ → Effect
  incomplete : ℕ → ℕ → Effect  -- bytes read, bytes needed
  -- The lines on the console, with the text that a symbol was printed as.
  order_printed order_received : List ℕ → OrderMessage → Effect
  cancel_received replace_received : Effect
  market_data_printed market_data_broadcast : List ℕ → MarketDataMessage → Effect
  sent : Option ℕ → List ℕ → Effect

pub record Server (D : Type 0) : Type 0 where
  pub server_ip : String
  pub server_port : ℕ  -- uint16_t
  pub thread_count : ℕ
  pub running : Bool
  pub server_socket : Option ℕ
  pub epoll_fd : Option ℕ
  pub worker_threads : List ℕ
  pub connections : List (ℕ × Connection)
  pub services : MessageType → Option Service
  pub stats : ServerStats D
  pub send_buffer : List ℕ
  pub recv_buffer : List ℕ
  pub effects : List Effect  -- newest first

abbrev pub buffer_size : ℕ
buffer_size = 4096

abbrev pub increment : ℕ → ℕ
increment n = (n + 1) % 2 ^ 64

-- A key of the map of services has one byte.
abbrev pub same_type : MessageType → MessageType → Bool
same_type a b = type_byte a == type_byte b

-- The map of connections, by fd.
abbrev pub find : ℕ → List (ℕ × Connection) → Option Connection
find fd [] = none
find fd ((k, c) ∷ m) = if k == fd then some c else find fd m

unfoldable pub insert : ℕ → Connection → List (ℕ × Connection) → List (ℕ × Connection)
insert fd c [] = (fd, c) ∷ []
insert fd c ((k, d) ∷ m) = if k == fd then (fd, c) ∷ m else (k, d) ∷ insert fd c m

unfoldable pub erase : ℕ → List (ℕ × Connection) → List (ℕ × Connection)
erase fd [] = []
erase fd ((k, c) ∷ m) = if k == fd then m else (k, c) ∷ erase fd m

module _ {D : Type 0} where
  abbrev pub emit : Effect → Server D → Server D
  emit e s = record s { effects = e ∷ s.effects }

  -- `HFTServer::get_instance()`, before `initialize`. A field with no initialiser is given 0.
  unfoldable pub new_server : Floats D → Server D
  new_server F = record {
    server_ip = "";
    server_port = 0;
    thread_count = 0;
    running = false;
    server_socket = none;
    epoll_fd = none;
    worker_threads = [];
    connections = [];
    services = λ _. none;
    stats = record {
      total_messages_processed = 0;
      total_connections = 0;
      avg_latency_us = F.zero_double;
      peak_connections = 0;
    };
    send_buffer = [];
    recv_buffer = [];
    effects = [];
  }

  abbrev pub get_stats : Server D → ServerStats D
  get_stats s = s.stats

  unfoldable pub register_service : MessageType → Option Service → Server D → Server D
  register_service type service s = record s {
    services = λ t. if same_type t type then service else s.services t;
  }
