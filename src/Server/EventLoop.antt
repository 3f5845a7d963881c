-- ===== src/Server/EventLoop.antt =====
-- The server loses no descriptor and closes none twice, whatever its event loop meets.
use hft.Base.{
  subst, sym, ap, ◌∙◌, inl, inr, Option-cases, ℕ, ◌≡◌, refl, Bool, true, false, List, none, some,
  arith, length, overwrite,
}
use hft.Server.State.{Server, Connection, Address, Floats, find}
use hft.Server.Receive.{
  Recvs, chunk, would_block, failed, disconnected, close_connection, receive_chunk, receive_loop,
  update_stats, log_all,
}
use hft.Server.Worker.{
  accepted, no_client, Event, listener, client, deref, accept_connections, handle_event,
}
use hft.Server.Content.{Content, is_readable, parse, settle}
use hft.Server.Refinement.{receive_chunk-parse, receive_chunk-settles}
use hft.Server.Descriptors.{count, open_fds, count-remove, count-erase, count-insert, count-find}
use hft.Server.Ownership.{
  Inv, find-IsKept, erase-IsKept, insert-IsKept, length-erase, deref-find, open_fds-log,
}

module _ {D : Type 0} (F : Floats D) where
  settle-Inv :
      (bs buffer : List ℕ) (ns : ℕ) (c : Content) (s : Server D)
      → Inv s
      → Inv (settle F bs ns c (record s { recv_buffer = buffer }))
  unfolding settle update_stats log_all
  settle-Inv bs buffer ns c s v = record {
    owns = λ x. ground (arith, v.owns x, open_fds-log s.services (length bs) c s.effects);
    distinct = λ x. ground (arith, v.distinct x, open_fds-log s.services (length bs) c s.effects);
    kept = ground (arith, v.kept);
    peak = ground (arith, v.peak);
    is_running = ground (arith, v.is_running);
  }

  settle-connections :
      (bs buffer : List ℕ) (ns : ℕ) (c : Content) (s : Server D)
      → (settle F bs ns c (record s { recv_buffer = buffer })).connections ≡ s.connections
  unfolding settle update_stats log_all
  settle-connections bs buffer ns c s = ground arith

  close_connection-Inv :
      (fd : ℕ) (conn : Connection) (s : Server D)
      → Inv s
      → find fd s.connections ≡ some conn
      → Inv (close_connection conn s)
  unfolding close_connection open_fds
  close_connection-Inv fd conn s v e =
      let (f, _) = find-IsKept fd s.connections conn v.kept e in
      record {
        owns = λ x. ground (
          arith,
          f,
          v.owns x,
          v.distinct x,
          count-remove x fd (open_fds s.effects),
          count-erase x fd s.connections,
          count-find fd s.connections {c = conn} e,
        );
        distinct = λ x. ground (arith, f, v.distinct x, count-remove x fd (open_fds s.effects));
        kept = ground (arith, f, erase-IsKept fd s.connections v.kept);
        peak = ground (arith, f, length-erase fd s.connections, v.peak);
        is_running = ground (arith, v.is_running);
      }

  receive_chunk-Inv :
      (fd : ℕ) (conn : Connection) (bs : List ℕ) (ns : ℕ) (s t : Server D)
      → Inv s
      → find fd s.connections ≡ some conn
      → receive_chunk F bs ns s ≡ some t
      → Inv t × (find fd t.connections ≡ some conn)
  receive_chunk-Inv fd conn bs ns s t v e run =
      let buffer = overwrite s.recv_buffer bs in
      let (c, settled) = receive_chunk-settles F bs ns s t run in
      (
        subst Inv settled (settle-Inv bs buffer ns c s v),
        ap (λ (u : Server D). find fd u.connections) (sym settled)
            ∙ ap (find fd) (settle-connections bs buffer ns c s)
            ∙ e,
      )

  receive_loop-Inv :
      (fd : ℕ) (conn : Connection) (answers : Recvs) (s t : Server D)
      → Inv s
      → find fd s.connections ≡ some conn
      → receive_loop F conn answers s ≡ some t
      → Inv t
  unfolding receive_loop
  receive_loop-Inv fd conn (chunk bs ns more) s t v e run =
      elim (Option-cases (receive_chunk F bs ns s)) [
        | inl lost ↦ absurd (ground (arith, run, lost))
        | inr (u, here) ↦
            let (w, f) = receive_chunk-Inv fd conn bs ns s u v e here in
            receive_loop-Inv fd conn more u t w f (ground (arith, run, here))
      ]
  receive_loop-Inv fd conn would_block s t v e run = subst Inv (ground (arith, run)) v
  receive_loop-Inv fd conn failed s t v e run = subst Inv (ground (arith, run)) v
  receive_loop-Inv fd conn disconnected s t v e run =
      subst Inv {x = close_connection conn s} (ground (arith, run))
        (close_connection-Inv fd conn s v e)

  -- Each chunk is readable by itself.
  unfoldable pub IsReadable : Recvs → Type 0
  IsReadable (chunk bs ns more) = (is_readable (parse bs) ≡ true) × IsReadable more
  IsReadable would_block = Unit
  IsReadable failed = Unit
  IsReadable disconnected = Unit

  receive_loop-some :
      (conn : Connection) (answers : Recvs) (s : Server D)
      → IsReadable answers
      → (t : Server D) × (receive_loop F conn answers s ≡ some t)
  unfolding receive_loop IsReadable
  receive_loop-some conn (chunk bs ns more) s h =
      let (t, run) =
        receive_loop-some conn more
          (settle F bs ns (parse bs) (record s { recv_buffer = overwrite s.recv_buffer bs })) h.1 in
      (t, ground (arith, receive_chunk-parse F bs ns s h.0, run))
  receive_loop-some conn would_block s h = (s, refl)
  receive_loop-some conn failed s h = (s, refl)
  receive_loop-some conn disconnected s h = (close_connection conn s, refl)

  -- `accept` and the allocator give what is not in use; an event names a live connection.
  pub data Allowed (s : Server D) : Event → Type 0 where
    nobody : Allowed s (listener no_client)
    fresh :
        (fd : ℕ) (addr : Address) (p now : ℕ) (ctl_ok : Bool)
        → count fd (open_fds s.effects) ≡ 0
        → deref p s.connections ≡ none
        → Allowed s (listener (accepted fd addr p now ctl_ok))
    live :
        (p : ℕ) (answers : Recvs) (c : Connection)
        → deref p s.connections ≡ some c
        → Allowed s (client p answers)

  accept-Inv :
      (fd : ℕ) (addr : Address) (p now : ℕ) (ctl_ok : Bool) (s : Server D)
      → Inv s
      → count fd (open_fds s.effects) ≡ 0
      → Inv (accept_connections (accepted fd addr p now ctl_ok) s)
  unfolding accept_connections open_fds
  accept-Inv fd addr p now false s v h = record {
    owns = λ x. ground (arith, v.owns x);
    distinct = λ x. ground (arith, v.distinct x);
    kept = v.kept;
    peak = v.peak;
    is_running = v.is_running;
  }
  accept-Inv fd addr p now true s v h = record {
    owns = λ x. ground (arith, v.owns x, v.owns fd, count-insert x fd conn s.connections);
    distinct = λ x. ground (arith, v.distinct x);
    kept = insert-IsKept fd conn s.connections (refl, refl) v.kept;
    peak = ground (arith, v.peak);
    is_running = ground (arith, v.is_running);
  }
    where
      conn : Connection
      conn = record {
        fd = some fd;
        addr = addr;
        last_heartbeat = now;
        client_id = p;
        is_authenticated = false;
      }

  -- An event that is handled without a fault keeps the invariant.
  pub handle_event-Keeps :
      (s t : Server D) (e : Event) → Inv s → Allowed s e → handle_event F e s ≡ some t → Inv t
  unfolding handle_event
  handle_event-Keeps s t _ v nobody run = subst Inv (ground (arith, run)) v
  handle_event-Keeps s t _ v (fresh fd addr p now ctl_ok h _) run =
      subst Inv {x = accept_connections (accepted fd addr p now ctl_ok) s} (ground (arith, run))
        (accept-Inv fd addr p now ctl_ok s v h)
  handle_event-Keeps s t _ v (live p answers c e) run =
      let (k, c', f, g) = deref-find p s.connections c v.kept e in
      receive_loop-Inv k c' answers s t v g (ground (arith, e, f, g, run))

  -- The chunks that an event brings.
  unfoldable pub IsReadableEvent : Event → Type 0
  unfolding IsReadable
  IsReadableEvent (listener a) = Unit
  IsReadableEvent (client p answers) = IsReadable answers

  handles :
      (s : Server D) (e : Event)
      → Inv s
      → Allowed s e
      → IsReadableEvent e
      → (t : Server D) × (handle_event F e s ≡ some t)
  unfolding handle_event IsReadableEvent
  handles s _ v nobody r = (s, refl)
  handles s _ v (fresh fd addr p now ctl_ok h _) r =
      (accept_connections (accepted fd addr p now ctl_ok) s, refl)
  handles s _ v (live p answers c e) r =
      let (k, c', f, g) = deref-find p s.connections c v.kept e in
      let (t, run) = receive_loop-some c' answers s r in (t, ground (arith, e, f, g, run))

  -- At a server that keeps the invariant `Inv`, an event of the loop is handled without a fault and
  -- keeps the invariant, when `accept` gives a descriptor that is not open, the allocator an address
  -- that is not in use, an event of a client names a connection that is alive, and what each `recv`
  -- returns for it is readable by itself.
  pub handle_event-Inv :
      (s : Server D) (e : Event)
      → Inv s
      → Allowed s e
      → IsReadableEvent e
      → (t : Server D) × (handle_event F e s ≡ some t) × Inv t
  handle_event-Inv s e v ok r =
      let (t, run) = handles s e v ok r in (t, run, handle_event-Keeps s t e v ok run)
