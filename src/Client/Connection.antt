-- ===== src/Client/Connection.antt =====
-- The descriptors and the state of the connection, over every operation that changes them.
use hft.Base.{
  ℕ, ◌+◌, ◌≡◌, refl, ap, ◌∙◌, sym, subst, Bool, true, false, List, [], ◌∷◌, Option, none, some,
  arith, inl, inr, if_true, if_false, if_cases, Bool-cases, Option-cases,
}
use hft.Server.Descriptors.{count, remove, held, count-remove}
use hft.Client.State.{
  Client, disconnected, reconnecting, Effect, opened, closed, is_connected, is_disconnected_state,
  emit, slept, add64,
}
use hft.Client.Connect.{
  ConnectAnswers, connect, disconnect, attempt_reconnection, handle_disconnection, close_socket,
  close_epoll,
}

unfoldable pub open_fds : List Effect → List ℕ
open_fds [] = []
open_fds (opened fd ∷ es) = fd ∷ open_fds es
open_fds (closed fd ∷ es) = remove fd (open_fds es)
open_fds (_ ∷ es) = open_fds es

abbrev pub is_set : Option ℕ → Bool
is_set none = false
is_set (some _) = true

-- The open descriptors are those in the two fields, and there is a socket just when connected.
pub record Inv {D : Type 0} (c : Client D) : Type 0 where
  pub owns : (x : ℕ) → count x (open_fds c.effects) ≡ held x c.socket_fd + held x c.epoll_fd
  pub socket_iff : is_set c.socket_fd ≡ is_connected c

module _ {D : Type 0} where
  -- At a client whose open descriptors are those that its fields hold, and that has a socket
  -- just when it is connected, `connect` keeps both, on each of its branches, and returns true
  -- just when the client is connected after it.
  pub connect-Inv :
      (a : ConnectAnswers) (c : Client D)
      → Inv c
      → Inv (connect a c).0 × ((connect a c).1 ≡ is_connected (connect a c).0)
  unfolding connect open_fds
  connect-Inv a c v = (
    record {
      owns = λ x. ground (arith, v.owns x, v.socket_iff);
      socket_iff = ground (arith, v.socket_iff);
    },
    ground arith,
  )

  -- What closing one of the two leaves.
  pub record Closed (c d : Client D) : Type 0 where
    pub left : (x : ℕ) → count x (open_fds d.effects) ≡ held x d.socket_fd + held x d.epoll_fd
    pub same_state : d.connection_state ≡ c.connection_state

  close_socket-Closed :
      (c : Client D)
      → ((x : ℕ) → count x (open_fds c.effects) ≡ held x c.socket_fd + held x c.epoll_fd)
      → Closed c (close_socket c) × ((close_socket c).socket_fd ≡ none)
  unfolding close_socket open_fds
  close_socket-Closed c h = elim (Option-cases c.socket_fd) [
    | inl e ↦ (
      record { left = λ x. ground (arith, h x, e); same_state = ground (arith, e) },
      ground (arith, e),
    )
    | inr (fd, e) ↦ (
      record {
        left = λ x. ground (arith, h x, e, count-remove x fd (open_fds c.effects));
        same_state = ground (arith, e);
      },
      ground (arith, e),
    )
  ]

  pub close_epoll-Closed :
      (c : Client D)
      → ((x : ℕ) → count x (open_fds c.effects) ≡ held x c.socket_fd + held x c.epoll_fd)
      → Closed c (close_epoll c)
        × ((close_epoll c).epoll_fd ≡ none)
        × ((close_epoll c).socket_fd ≡ c.socket_fd)
  unfolding close_epoll open_fds
  close_epoll-Closed c h = elim (Option-cases c.epoll_fd) [
    | inl e ↦ (
      record { left = λ x. ground (arith, h x, e); same_state = ground (arith, e) },
      ground (arith, e),
      ground (arith, e),
    )
    | inr (fd, e) ↦ (
      record {
        left = λ x. ground (arith, h x, e, count-remove x fd (open_fds c.effects));
        same_state = ground (arith, e);
      },
      ground (arith, e),
      ground (arith, e),
    )
  ]

  abbrev dropped : Client D → Client D
  dropped c = record c { connection_state = disconnected }

  disconnect_already :
      (c : Client D) → is_disconnected_state c.connection_state ≡ true → disconnect c ≡ c
  unfolding disconnect
  disconnect_already c e = if_true _ _ e

  disconnect_closing :
      (c : Client D)
      → is_disconnected_state c.connection_state ≡ false
      → disconnect c ≡ close_epoll (close_socket (dropped c))
  unfolding disconnect
  disconnect_closing c e = if_false _ _ e

  -- At a client whose open descriptors are those that its fields hold, and that has a socket
  -- just when it is connected, `disconnect` keeps both, also when the client was disconnected
  -- before.
  pub disconnect-Inv : (c : Client D) → Inv c → Inv (disconnect c)
  disconnect-Inv c v = elim (Bool-cases (is_disconnected_state c.connection_state)) [
    | inl e ↦ subst Inv (sym (disconnect_already c e)) v
    | inr e ↦
        let (a, b) = close_socket-Closed (dropped c) v.owns in
        let (p, _, q) = close_epoll-Closed (close_socket (dropped c)) a.left in
        subst Inv (sym (disconnect_closing c e))
          (record { owns = p.left; socket_iff = ground (arith, b, q, p.same_state, a.same_state) })
  ]

  -- What a run of reconnections promises: unless more of them follow, which the flag tells, or
  -- `auto_reconnect_` is off, the client is connected.
  pub record IsRetried (c : Client D) (r : Client D × Bool) : Type 0 where
    pub keeps_inv : Inv r.0
    pub connected_at_end : c.auto_reconnect ≡ true → r.1 ≡ false → is_connected r.0 ≡ true
    pub same_setting : r.0.auto_reconnect ≡ c.auto_reconnect

  connect_setting :
      (a : ConnectAnswers) (c : Client D) → (connect a c).0.auto_reconnect ≡ c.auto_reconnect
  unfolding connect
  connect_setting a c = ground arith

  abbrev pub counted_once : Client D → Client D
  counted_once c = record c {
    stats = record stats { reconnection_attempts = add64 stats.reconnection_attempts 1 };
  }
    where
      open c use {stats}

  counted-Inv : (c : Client D) → Inv c → Inv (counted_once c)
  counted-Inv c v = record { owns = v.owns; socket_iff = v.socket_iff }

  waited-Inv : (ms : ℕ) (c : Client D) → Inv c → Inv (emit (slept ms) c)
  unfolding open_fds
  waited-Inv ms c v = record { owns = v.owns; socket_iff = v.socket_iff }

  attempt-IsRetried :
      (answers : List ConnectAnswers) (c : Client D)
      → Inv c
      → IsRetried c (attempt_reconnection answers c)
  unfolding attempt_reconnection
  attempt-IsRetried [] c v = record {
    keeps_inv = v;
    connected_at_end = λ on done. cc;
    same_setting = refl;
  }
  attempt-IsRetried (a ∷ answers) c v =
      let counted = counted_once c in
      let tried = (connect a counted).0 in
      let (w, result) = connect-Inv a counted (counted-Inv c v) in
      let waited = emit (slept c.reconnect_interval_ms) tried in
      let x : Inv waited = waited-Inv c.reconnect_interval_ms tried w in
      if_cases (IsRetried c) (connect a counted).1
        (λ done. record {
          keeps_inv = w;
          connected_at_end = λ _ _. sym result ∙ done;
          same_setting = connect_setting a counted;
        })
        (λ failed.
          if_cases (IsRetried c) c.auto_reconnect
            (λ on.
              let r = attempt-IsRetried answers waited x in
              record {
                keeps_inv = r.keeps_inv;
                connected_at_end =
                    λ _ over. r.connected_at_end (connect_setting a counted ∙ on) over;
                same_setting = r.same_setting ∙ connect_setting a counted;
              })
            (λ off. record {
              keeps_inv = x;
              connected_at_end = λ on _. cc;
              same_setting = connect_setting a counted;
            }))

  lose : Client D → Client D
  lose c = close_socket (dropped c)

  lose-Inv : (c : Client D) → Inv c → Inv (lose c)
  unfolding lose
  lose-Inv c v =
      let (a, b) = close_socket-Closed (dropped c) v.owns in
      record { owns = a.left; socket_iff = ground (arith, b, a.same_state) }

  lose_setting : (c : Client D) → (lose c).auto_reconnect ≡ c.auto_reconnect
  unfolding lose close_socket
  lose_setting c = ground arith

  pub handle_disconnection-IsRetried :
      (answers : List ConnectAnswers) (c : Client D)
      → Inv c
      → is_disconnected_state c.connection_state ≡ false
      → IsRetried c (handle_disconnection answers c)
  unfolding handle_disconnection lose
  handle_disconnection-IsRetried answers c v here =
      if_cases (IsRetried c) (is_disconnected_state c.connection_state)
        (λ gone. absurd (cc (gone, here)))
        (λ _.
          if_cases (IsRetried c) c.auto_reconnect
            (λ on.
              let r = attempt-IsRetried answers retrying w in
              record {
                keeps_inv = r.keeps_inv;
                connected_at_end = λ _ over. r.connected_at_end (lose_setting c ∙ on) over;
                same_setting = r.same_setting ∙ lose_setting c;
              })
            (λ off. record {
              keeps_inv = lose-Inv c v;
              connected_at_end = λ on _. cc;
              same_setting = lose_setting c;
            }))
    where
      retrying : Client D
      retrying = record (lose c) { connection_state = reconnecting }

      w : Inv retrying
      w = record {
        owns = (lose-Inv c v).owns;
        socket_iff = ap is_set (close_socket-Closed (dropped c) v.owns).1;
      }
