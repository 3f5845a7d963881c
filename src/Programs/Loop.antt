-- ===== src/Programs/Loop.antt =====
-- src/main.cpp: how `main` ends, and what an interrupt does.
use Prim.Native.String.{String}
use hft.Base.{
  ℕ, ◌≡◌, ◌⊎◌, refl, ap, ◌∙◌, Bool, true, false, ◌||◌, inl, inr, List, [], ◌∷◌, some, arith,
  Bool-cases, Option-cases, if◌then◌else◌,
}
use hft.Server.State.{Server, Floats, new_server}
use hft.Server.Lifecycle.{
  InitAnswers, initialize, stop, close_connections, close_epoll, join_workers, unbind,
}
use hft.Server.Shutdown.{keeps, close_fd-Keeps, join_all-Keeps, close_all-Keeps}
use hft.Server.Worker.{Event}
use hft.Programs.Arguments.{Config, parsed, parse_arguments, default_config}
use hft.Programs.Server.{
  Signal, interrupt, terminate, Process, Turn, undefined, looping, signal_handler, deliver, report,
  work, main_loop, started_server, serve, main,
}

unfoldable has_interrupt : List Signal → Bool
has_interrupt [] = false
has_interrupt (interrupt ∷ xs) = true
has_interrupt (terminate ∷ xs) = has_interrupt xs

-- Whether SIGINT arrives in one of the turns.
unfoldable pub interrupted : List Turn → Bool
unfolding has_interrupt
interrupted [] = false
interrupted (x ∷ xs) = has_interrupt x.signals || interrupted xs

module _ {D : Type 0} where
  running-unbind : (s : Server D) → (unbind s).running ≡ false
  unfolding unbind
  running-unbind s = refl

  running-join_workers : (s : Server D) → (join_workers s).running ≡ s.running
  unfolding join_workers
  running-join_workers s = (join_all-Keeps s.worker_threads s s keeps).0.running

  running-close_epoll : (s : Server D) → (close_epoll s).running ≡ s.running
  unfolding close_epoll
  running-close_epoll s = (close_fd-Keeps s.epoll_fd s).running

  running-close_connections : (s : Server D) → (close_connections s).running ≡ s.running
  unfolding close_connections
  running-close_connections s = (close_all-Keeps s.connections s s keeps).running

  running-stop : (s : Server D) → (stop s).running ≡ false
  unfolding stop
  running-stop s = elim (Bool-cases s.running) [
    | inr off ↦ ground (arith, off)
    | inl on ↦
        ap (λ (b : Bool). (if b then closed else s).running) on
        ∙ running-close_connections (close_epoll (join_workers (unbind s)))
        ∙ running-close_epoll (join_workers (unbind s))
        ∙ running-join_workers (unbind s)
        ∙ running-unbind s
  ]
    where
      closed : Server D
      closed = close_connections (close_epoll (join_workers (unbind s)))

  deliver-g_server : (xs : List Signal) (p : Process D) → (deliver xs p).g_server ≡ p.g_server
  unfolding deliver signal_handler
  deliver-g_server [] p = refl
  deliver-g_server (interrupt ∷ xs) p =
      deliver-g_server xs (signal_handler interrupt p) ∙ ground arith
  deliver-g_server (terminate ∷ xs) p = deliver-g_server xs p

  deliver-off :
      (xs : List Signal) (p : Process D)
      → p.server.running ≡ false
      → (deliver xs p).server.running ≡ false
  unfolding deliver signal_handler
  deliver-off [] p off = off
  deliver-off (interrupt ∷ xs) p off =
      deliver-off xs (signal_handler interrupt p) (ground (arith, off, running-stop p.server))
  deliver-off (terminate ∷ xs) p off = deliver-off xs p off

  deliver-interrupted :
      (xs : List Signal) (p : Process D)
      → p.g_server ≡ true
      → has_interrupt xs ≡ true
      → (deliver xs p).server.running ≡ false
  unfolding deliver signal_handler has_interrupt
  deliver-interrupted [] p g h = absurd (cc h)
  deliver-interrupted (interrupt ∷ xs) p g h =
      deliver-off xs (signal_handler interrupt p) (ground (arith, g, running-stop p.server))
  deliver-interrupted (terminate ∷ xs) p g h = deliver-interrupted xs p g h

  report-g_server : (now : ℕ) (p : Process D) → (report now p).g_server ≡ p.g_server
  unfolding report
  report-g_server now p = ground arith

  report-running : (now : ℕ) (p : Process D) → (report now p).server.running ≡ p.server.running
  unfolding report
  report-running now p = ground arith

module _ {D : Type 0} (F : Floats D) where
  abbrev after_turn : Turn → Server D → Process D → Process D
  after_turn x worked p = report x.now (deliver x.signals (record p { server = worked }))

  after_turn-g_server :
      (x : Turn) (worked : Server D) (p : Process D) → (after_turn x worked p).g_server ≡ p.g_server
  after_turn-g_server x worked p =
      report-g_server x.now (deliver x.signals (record p { server = worked }))
      ∙ deliver-g_server x.signals (record p { server = worked })

  after_turn-off :
      (x : Turn) (worked : Server D) (p : Process D)
      → worked.running ≡ false
      → (after_turn x worked p).server.running ≡ false
  after_turn-off x worked p off =
      report-running x.now (deliver x.signals (record p { server = worked }))
      ∙ deliver-off x.signals (record p { server = worked }) off

  after_turn-interrupted :
      (x : Turn) (worked : Server D) (p : Process D)
      → p.g_server ≡ true
      → has_interrupt x.signals ≡ true
      → (after_turn x worked p).server.running ≡ false
  after_turn-interrupted x worked p g h =
      report-running x.now (deliver x.signals (record p { server = worked }))
      ∙ deliver-interrupted x.signals (record p { server = worked }) g h

  work-off :
      (events : List Event) (s worked : Server D)
      → s.running ≡ false
      → work F events s ≡ some worked
      → worked.running ≡ false
  unfolding work
  work-off events s worked off e = ground (arith, off, e)

  -- The loop over turns: it goes on unless a worker faults.
  abbrev GoesOn : List Turn → Process D → Type 0
  GoesOn xs p =
      (main_loop F xs p ≡ undefined)
      ⊎ ((q : Process D) × (main_loop F xs p ≡ looping q)
          × (interrupted xs ≡ true → q.server.running ≡ false)
          × (p.server.running ≡ false → q.server.running ≡ false))

  main_loop-GoesOn : (xs : List Turn) (p : Process D) → p.g_server ≡ true → GoesOn xs p
  unfolding main_loop interrupted work
  main_loop-GoesOn [] p g = inr (p, refl, λ h. absurd (cc h), λ off. off)
  main_loop-GoesOn (x ∷ xs) p g = elim (Option-cases (work F x.events p.server)) [
    | inl lost ↦ inl (ground (arith, lost))
    | inr (worked, ok) ↦
        let still = after_turn-g_server x worked p ∙ g in
        elim (main_loop-GoesOn xs (after_turn x worked p) still) [
          | inl lost ↦ inl (ground (arith, ok, still, lost))
          | inr (q, run, stops, stays) ↦ inr (
            q,
            ground (arith, ok, still, run),
            (λ h. elim (Bool-cases (has_interrupt x.signals)) [
              | inl now ↦ stays (after_turn-interrupted x worked p g now)
              | inr not_now ↦ stops (ground (arith, h, not_now))
            ]),
            (λ off. stays (after_turn-off x worked p (work-off x.events p.server worked off ok))),
          )
        ]
  ]

  -- When the arguments are read and `initialize` succeeds, `main` does not return, whatever
  -- signals and events come: it stays in its loop, unless a worker's fault leaves its behaviour undefined.
  -- After SIGINT it stays in the loop with a server that is stopped.
  pub main_never_returns :
      (args : List String) (a : InitAnswers) (now : ℕ) (xs : List Turn) (c : Config)
      → parse_arguments args default_config ≡ parsed c
      → (initialize c.server_ip c.server_port c.thread_count a (new_server F)).1 ≡ true
      → (main F args a now xs ≡ undefined)
        ⊎ ((q : Process D) × (main F args a now xs ≡ looping q)
            × (interrupted xs ≡ true → q.server.running ≡ false))
  unfolding main serve
  main_never_returns args a now xs c given done = elim (main_loop-GoesOn xs begun refl) [
    | inl lost ↦ inl (ground (arith, given, done, lost))
    | inr (q, run, stops, _) ↦ inr (q, ground (arith, given, done, run), stops)
  ]
    where
      begun : Process D
      begun = record {
        g_server = true;
        server = started_server F a c;
        last_stats_time = now;
        reports = [];
      }
