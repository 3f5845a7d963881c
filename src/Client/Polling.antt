-- ===== src/Client/Polling.antt =====
-- The descriptors over the steps of the epoll thread.
use hft.Base.{
  suc, ℕ, ◌≡◌, refl, subst, inl, inr, List, [], ◌∷◌, Option, none, some, arith, length, ◌==◌,
  Bool-cases, Option-cases,
}
use hft.Client.State.{Client, Floats, emit, slept}
use hft.Client.Connect.{close_epoll}
use hft.Client.Connection.{Inv, open_fds, close_epoll-Closed}
use hft.Client.Receive.{process_received_data, count_bytes}
use hft.Client.Keeps.{Keeps, keeps, Keeps-trans, process_loop-Keeps}
use hft.Client.Threads.{
  Readable, bytes, no_bytes, ClientEvent, open_epoll, read_bytes, handle_client_event, epoll_turn,
}

module _ {D : Type 0} where
  pub open_epoll-Inv :
      (answer : Option ℕ) (c : Client D) → c.epoll_fd ≡ none → Inv c → Inv (open_epoll answer c).0
  unfolding open_epoll open_fds
  open_epoll-Inv none c e v = record {
    owns = λ x. ground (arith, v.owns x, e);
    socket_iff = v.socket_iff;
  }
  open_epoll-Inv (some ep) c e v = record {
    owns = λ x. ground (arith, v.owns x, e);
    socket_iff = v.socket_iff;
  }

  pub close_epoll-Inv : (c : Client D) → Inv c → Inv (close_epoll c)
  close_epoll-Inv c v =
      let (p, _, same) = close_epoll-Closed c v.owns in
      record { owns = p.left; socket_iff = ground (arith, v.socket_iff, same, p.same_state) }

module _ {D : Type 0} (F : Floats D) where
  counted-Keeps : (n now : ℕ) (c : Client D) → Keeps c (count_bytes F n now c)
  unfolding count_bytes
  counted-Keeps n now c = record {
    socket_fd = refl;
    epoll_fd = refl;
    state = refl;
    open_now = refl;
  }

  read_bytes-Keeps :
      (answer : Readable) (c d : Client D) → read_bytes F answer c ≡ some d → Keeps c d
  unfolding read_bytes process_received_data
  read_bytes-Keeps no_bytes c d e = subst (Keeps c) (ground (arith, e)) keeps
  read_bytes-Keeps (bytes [] now clock) c d e = subst (Keeps c) (ground (arith, e)) keeps
  read_bytes-Keeps (bytes (b ∷ bs) now clock) c d e =
      Keeps-trans (counted-Keeps (length (b ∷ bs)) now c) (
        process_loop-Keeps F (suc (length (b ∷ bs))) clock (b ∷ bs) 0
          (count_bytes F (length (b ∷ bs)) now c) d e)

  handle_client_event-Keeps :
      (x : ClientEvent) (c d : Client D) → handle_client_event F x c ≡ some d → Keeps c d
  unfolding handle_client_event
  handle_client_event-Keeps x c d e = elim (Option-cases c.socket_fd) [
    | inl unset ↦ subst (Keeps c) (ground (arith, e, unset)) keeps
    | inr (fd, is_fd) ↦ elim (Bool-cases (x.fd == fd)) [
      | inr other ↦ subst (Keeps c) (ground (arith, e, is_fd, other)) keeps
      | inl this ↦ elim (Bool-cases x.readable) [
        | inr quiet ↦ subst (Keeps c) (ground (arith, e, is_fd, this, quiet)) keeps
        | inl loud ↦ read_bytes-Keeps x.answer c d (ground (arith, e, is_fd, this, loud))
      ]
    ]
  ]

  pub epoll_turn-Keeps :
      (xs : List ClientEvent) (c d : Client D) → epoll_turn F xs c ≡ some d → Keeps c d
  unfolding epoll_turn open_fds
  epoll_turn-Keeps [] c d e =
      subst (Keeps c) {x = emit (slept 1) c} {y = d} (ground (arith, e))
        (record { socket_fd = refl; epoll_fd = refl; state = refl; open_now = refl })
  epoll_turn-Keeps (x ∷ xs) c d e = elim (Option-cases (handle_client_event F x c)) [
    | inl lost ↦ absurd (ground (arith, e, lost))
    | inr (u, run) ↦
        Keeps-trans (handle_client_event-Keeps x c u run)
          (epoll_turn-Keeps xs u d (ground (arith, e, run)))
  ]
