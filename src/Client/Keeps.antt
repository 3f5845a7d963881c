-- ===== src/Client/Keeps.antt =====
-- Handling received messages leaves the descriptors and the state of the connection alone.
use hft.Base.{
  ℕ, zero, suc, ◌+◌, ◌≡◌, refl, ap, ◌∙◌, sym, subst, inl, inr, List, some, arith, length, leb, ltb,
  drop, Option-cases, Bool-cases, if◌then◌else◌,
}
use hft.Message.Types.{Message}
use hft.Message.Layout.{message_size}
use hft.Message.Codec.{decode_message}
use hft.Client.State.{Client, Floats, is_connected, sub64}
use hft.Client.Latency.{update_latency_stats}
use hft.Client.Receive.{process_message, process_one, process_loop}
use hft.Client.Connection.{Inv, open_fds, is_set}

module _ {D : Type 0} where
  -- What a handler leaves alone.
  pub record Keeps (c d : Client D) : Type 0 where
    pub socket_fd : d.socket_fd ≡ c.socket_fd
    pub epoll_fd : d.epoll_fd ≡ c.epoll_fd
    pub state : is_connected d ≡ is_connected c
    pub open_now : open_fds d.effects ≡ open_fds c.effects

  pub Keeps-Inv : (c d : Client D) → Keeps c d → Inv c → Inv d
  Keeps-Inv c d k v = record {
    owns = λ x. ground (arith, v.owns x, k.socket_fd, k.epoll_fd, k.open_now);
    socket_iff = ap is_set k.socket_fd ∙ v.socket_iff ∙ sym k.state;
  }

  process_message-Keeps : (m : Message) (c d : Client D) → process_message m c ≡ some d → Keeps c d
  unfolding process_message open_fds
  process_message-Keeps m c d e = record {
    socket_fd = ground (arith, e);
    epoll_fd = ground (arith, e);
    state = ground (arith, e);
    open_now = ground (arith, e);
  }

  pub keeps : {c : Client D} → Keeps c c
  keeps = record { socket_fd = refl; epoll_fd = refl; state = refl; open_now = refl }

  pub Keeps-trans : {c d e : Client D} → Keeps c d → Keeps d e → Keeps c e
  Keeps-trans k l = record {
    socket_fd = l.socket_fd ∙ k.socket_fd;
    epoll_fd = l.epoll_fd ∙ k.epoll_fd;
    state = l.state ∙ k.state;
    open_now = l.open_now ∙ k.open_now;
  }

module _ {D : Type 0} (F : Floats D) where
  timed : ℕ → Message → Client D → Client D
  timed now m c = if ltb 0 m.timestamp then update_latency_stats F (sub64 now m.timestamp) c else c

  timed-Keeps : (now : ℕ) (m : Message) (c : Client D) → Keeps c (timed now m c)
  unfolding timed update_latency_stats
  timed-Keeps now m c = record {
    socket_fd = ground arith;
    epoll_fd = ground arith;
    state = ground arith;
    open_now = ground arith;
  }

  process_one-Keeps :
      (now : ℕ) (m : Message) (c d : Client D) → process_one F now m c ≡ some d → Keeps c d
  unfolding process_one timed
  process_one-Keeps now m c d e = elim (Option-cases (process_message m (timed now m c))) [
    | inl fault ↦ absurd (ground (arith, e, fault))
    | inr (u, run) ↦ Keeps-trans (timed-Keeps now m c) (
        Keeps-trans (process_message-Keeps m (timed now m c) u run) (record {
          socket_fd = ground (arith, e, run);
          epoll_fd = ground (arith, e, run);
          state = ground (arith, e, run);
          open_now = ground (arith, e, run);
        }))
  ]

  pub process_loop-Keeps :
      (fuel : ℕ) (clock : ℕ → ℕ) (bytes : List ℕ) (offset : ℕ) (c d : Client D)
      → process_loop F fuel clock bytes offset c ≡ some d
      → Keeps c d
  unfolding process_loop
  process_loop-Keeps zero clock bytes offset c d e = absurd (ground (arith, e))
  process_loop-Keeps (suc fuel) clock bytes offset c d e =
      let again = process_loop-Keeps fuel clock bytes (offset + message_size) in
      elim (Bool-cases (leb (offset + message_size) (length bytes))) [
        | inr done ↦ subst (Keeps c) (ground (arith, e, done)) keeps
        | inl more ↦ elim (Option-cases (decode_message (drop offset bytes))) [
          | inl fault ↦ absurd (ground (arith, e, more, fault))
          | inr ((m, rest), read) ↦ elim (Option-cases (process_one F (clock offset) m c)) [
            | inl fault ↦ absurd (ground (arith, e, more, read, fault))
            | inr (u, run) ↦
                Keeps-trans (process_one-Keeps (clock offset) m c u run)
                  (again u d (ground (arith, e, more, read, run)))
          ]
        ]
      ]
