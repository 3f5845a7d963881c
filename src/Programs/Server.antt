-- ===== src/Programs/Server.antt =====
-- src/main.cpp: `signal_handler` and `main`. The answers of the system calls, the
-- clock, the signals and the events of the workers are arguments.
use Prim.Native.String.{String}
use hft.Base.{Option, none, ℕ, ◌-◌, Bool, true, false, List, [], ◌∷◌, some, leb, if◌then◌else◌}
use hft.Message.Types.{MessageType}
use hft.Server.State.{
  Server, ServerStats, Floats, order_service, market_data_service, new_server, get_stats,
  register_service,
}
use hft.Server.Lifecycle.{InitAnswers, initialize, start, stop}
use hft.Server.Worker.{Event, handle_events}
use hft.Programs.Arguments.{Config, parsed, usage, uncaught, parse_arguments, default_config}

-- The signals that `main` asks for.
pub data Signal : Type 0 where
  interrupt terminate : Signal  -- SIGINT, SIGTERM

-- The process in its loop. `g_server` is whether the pointer is set.
pub record Process (D : Type 0) : Type 0 where
  pub g_server : Bool
  pub server : Server D
  pub last_stats_time : ℕ
  pub reports : List (ServerStats D)  -- newest first

-- One turn of the loop: what the workers handle in it, the signals that arrive, and the time.
pub record Turn : Type 0 where
  pub events : List Event
  pub signals : List Signal
  pub now : ℕ

-- How `main` ends, or that it is in its loop. From a fault of a worker on its behaviour is `undefined`.
pub data Outcome (D : Type 0) : Type 0 where
  returns : ℕ → Outcome D
  aborts undefined : Outcome D
  looping : Process D → Outcome D

-- Five seconds, in nanoseconds of the steady clock.
abbrev stats_interval : ℕ
stats_interval = 5000000000

module _ {D : Type 0} where
  unfoldable pub signal_handler : Signal → Process D → Process D
  signal_handler interrupt p = if p.g_server then record p { server = stop p.server } else p
  signal_handler terminate p = p

  unfoldable pub deliver : List Signal → Process D → Process D
  unfolding signal_handler
  deliver [] p = p
  deliver (x ∷ xs) p = deliver xs (signal_handler x p)

  unfoldable pub report : ℕ → Process D → Process D
  report now p =
      if leb stats_interval (now - p.last_stats_time)
      then record p { last_stats_time = now; reports = get_stats p.server ∷ p.reports }
      else p

  unfoldable pub register_services : Server D → Server D
  unfolding register_service
  register_services s = register_service MessageType.market_data (some market_data_service) (
      register_service MessageType.order_replace (some order_service) (
        register_service MessageType.order_cancel (some order_service)
          (register_service MessageType.order_new (some order_service) s)))

module _ {D : Type 0} (F : Floats D) where
  -- The workers, while there are any.
  unfoldable pub work : List Event → Server D → Option (Server D)
  unfolding handle_events
  work events s = if s.running then handle_events F events s else some s

  -- `while (true)`, over the turns there are.
  unfoldable pub main_loop : List Turn → Process D → Outcome D
  unfolding work deliver report
  main_loop [] p = looping p
  main_loop (x ∷ xs) p = elim (work x.events p.server) [
    | none ↦ undefined
    | some worked ↦
        let after = report x.now (deliver x.signals (record p { server = worked })) in
        elim after.g_server [ false ↦ returns 0 | true ↦ main_loop xs after ]
  ]

  -- The server when the loop begins, with what `initialize` made of it.
  unfoldable pub started_server : InitAnswers → Config → Server D
  unfolding register_services
  started_server a c =
      start
        (register_services (initialize c.server_ip c.server_port c.thread_count a (new_server F)).0)

  -- From `get_instance` on, `now` being the time before the loop.
  unfoldable pub serve : InitAnswers → ℕ → List Turn → Config → Outcome D
  unfolding started_server main_loop
  serve a now xs c = elim (initialize c.server_ip c.server_port c.thread_count a (new_server F)).1 [
    | false ↦ returns 1
    | true ↦ main_loop xs (record {
      g_server = true;
      server = started_server a c;
      last_stats_time = now;
      reports = [];
    })
  ]

  -- `main`, with the arguments after the program's name.
  unfoldable pub main : List String → InitAnswers → ℕ → List Turn → Outcome D
  unfolding serve
  main args a now xs = elim (parse_arguments args default_config) [
    | usage ↦ returns 0
    | uncaught ↦ aborts
    | parsed c ↦ serve a now xs c
  ]
