-- ===== src/Server/Silence.antt =====
-- What the server writes to its connections.
use hft.Base.{
  subst, ℕ, suc, ◌≡◌, refl, ◌∙◌, inl, inr, List, [], ◌∷◌, ◌++◌, Option, some, arith, length,
  overwrite, Option-cases,
}
use hft.Message.Types.{MessageType}
use hft.Server.State.{Server, Connection, Service, Floats, Effect, sent, find}
use hft.Server.Lifecycle.{setup_socket_options, set_non_blocking}
use hft.Server.Receive.{
  Recvs, chunk, would_block, failed, disconnected, close_connection, receive_chunk, receive_loop,
  handle_client_events, update_stats, log_all,
}
use hft.Server.Worker.{
  Event, listener, client, AcceptAnswer, accept_connections, handle_event, deref, store_connection,
}
use hft.Server.Content.{Content, log, settle}
use hft.Server.Refinement.{receive_chunk-settles}
use hft.Server.Run.{Reach, here, next}

-- How often the server has written to a connection.
unfoldable pub sends : List Effect → ℕ
sends [] = 0
sends (sent fd bytes ∷ es) = suc (sends es)
sends (_ ∷ es) = sends es

sends-log :
    (services : MessageType → Option Service) (n : ℕ) (c : Content) (es : List Effect)
    → sends (log services n c ++ es) ≡ sends es
unfolding log sends
sends-log services n c es = ground arith

module _ {D : Type 0} (F : Floats D) where
  -- Nothing is written, and the services stay registered.
  pub record Quiet (s t : Server D) : Type 0 where
    pub unsent : sends t.effects ≡ sends s.effects
    pub same_services : t.services ≡ s.services

  Quiet-refl : (s : Server D) → Quiet s s
  Quiet-refl s = record { unsent = refl; same_services = refl }

  Quiet-trans : {s t u : Server D} → Quiet s t → Quiet t u → Quiet s u
  Quiet-trans a b = record {
    unsent = b.unsent ∙ a.unsent;
    same_services = b.same_services ∙ a.same_services;
  }

  settle-Quiet :
      (bs buffer : List ℕ) (ns : ℕ) (c : Content) (s : Server D)
      → Quiet s (settle F bs ns c (record s { recv_buffer = buffer }))
  unfolding settle update_stats log_all
  settle-Quiet bs buffer ns c s = record {
    unsent = ground (arith, sends-log s.services (length bs) c s.effects);
    same_services = ground arith;
  }

  close_connection-Quiet : (conn : Connection) (s : Server D) → Quiet s (close_connection conn s)
  unfolding close_connection sends
  close_connection-Quiet conn s = record { unsent = ground arith; same_services = ground arith }

  receive_loop-Quiet :
      (conn : Connection) (answers : Recvs) (s t : Server D)
      → receive_loop F conn answers s ≡ some t
      → Quiet s t
  unfolding receive_loop
  receive_loop-Quiet conn (chunk bs ns more) s t e = elim (Option-cases (receive_chunk F bs ns s)) [
    | inl lost ↦ absurd (ground (arith, e, lost))
    | inr (u, run) ↦
        let (c, settled) = receive_chunk-settles F bs ns s u run in
        Quiet-trans (subst (Quiet s) settled (settle-Quiet bs (overwrite s.recv_buffer bs) ns c s))
          (receive_loop-Quiet conn more u t (ground (arith, e, run)))
  ]
  receive_loop-Quiet conn would_block s t e = subst (Quiet s) (ground (arith, e)) (Quiet-refl s)
  receive_loop-Quiet conn failed s t e = subst (Quiet s) (ground (arith, e)) (Quiet-refl s)
  receive_loop-Quiet conn disconnected s t e =
      subst (Quiet s) {x = close_connection conn s} (ground (arith, e))
        (close_connection-Quiet conn s)

  accept-Quiet : (a : AcceptAnswer) (s : Server D) → Quiet s (accept_connections a s)
  unfolding accept_connections store_connection setup_socket_options set_non_blocking sends
  accept-Quiet a s = record { unsent = ground arith; same_services = ground arith }

  handle_client_events-Quiet :
      (fd : ℕ) (answers : Recvs) (s t : Server D)
      → handle_client_events F fd answers s ≡ some t
      → Quiet s t
  unfolding handle_client_events
  handle_client_events-Quiet fd answers s t e = elim (Option-cases (find fd s.connections)) [
    | inl gone ↦ subst (Quiet s) (ground (arith, e, gone)) (Quiet-refl s)
    | inr (conn, found) ↦ receive_loop-Quiet conn answers s t (ground (arith, e, found))
  ]

  handle_event-Quiet : (e : Event) (s t : Server D) → handle_event F e s ≡ some t → Quiet s t
  unfolding handle_event
  handle_event-Quiet (listener a) s t e =
      subst (Quiet s) {x = accept_connections a s} (ground (arith, e)) (accept-Quiet a s)
  handle_event-Quiet (client p answers) s t e = elim (Option-cases (deref p s.connections)) [
    | inl freed ↦ absurd (ground (arith, e, freed))
    | inr (conn, live) ↦ elim (Option-cases conn.fd) [
      | inl no_fd ↦ subst (Quiet s) (ground (arith, e, live, no_fd)) (Quiet-refl s)
      | inr (fd, is_fd) ↦ handle_client_events-Quiet fd answers s t (ground (arith, e, live, is_fd))
    ]
  ]

  pub Reach-Quiet : {s t : Server D} → Reach F s t → Quiet s t
  Reach-Quiet {s = s} here = Quiet-refl s
  Reach-Quiet (next {t = t} {u = u} e r ok run) =
      Quiet-trans (Reach-Quiet r) (handle_event-Quiet e t u run)
