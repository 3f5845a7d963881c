-- ===== src/SimpleClient/Keeps.antt =====
-- The operations of the simple client, one by one, against its descriptors.
use hft.Base.{
  ℕ, zero, suc, ◌+◌, ◌≡◌, refl, ap, sym, ◌∙◌, subst, inl, inr, List, [], ◌∷◌, Option, some, arith,
  length, leb, drop, Bool-cases, Option-cases,
}
use hft.Message.Types.{Message}
use hft.Message.Layout.{message_size}
use hft.Message.Codec.{decode_message}
use hft.Server.Descriptors.{count, remove, held, count-remove}
use hft.Client.State.{Floats}
use hft.Client.Connect.{ConnectAnswers}
use hft.Client.Connection.{is_set}
use hft.SimpleClient.State.{SimpleClient, Effect, opened, closed, is_connected}
use hft.SimpleClient.Link.{connect, disconnect}
use hft.SimpleClient.Send.{send_message}
use hft.SimpleClient.Receive.{process_message, count_and_measure, process_one, process_loop}

unfoldable pub open_fds : List Effect → List ℕ
open_fds [] = []
open_fds (opened fd ∷ es) = fd ∷ open_fds es
open_fds (closed fd ∷ es) = remove fd (open_fds es)
open_fds (_ ∷ es) = open_fds es

-- What is open is the socket, and there is one just when the client is connected.
pub record Inv {D : Type 0} (c : SimpleClient D) : Type 0 where
  pub owns : (x : ℕ) → count x (open_fds c.effects) ≡ held x c.socket_fd
  pub socket_iff : is_set c.socket_fd ≡ is_connected c

module _ {D : Type 0} where
  -- What sending and receiving leave alone.
  pub record Keeps (c d : SimpleClient D) : Type 0 where
    pub socket_fd : d.socket_fd ≡ c.socket_fd
    pub state : is_connected d ≡ is_connected c
    pub open_now : open_fds d.effects ≡ open_fds c.effects

  pub keeps : {c : SimpleClient D} → Keeps c c
  keeps = record { socket_fd = refl; state = refl; open_now = refl }

  pub Keeps-trans : {c d e : SimpleClient D} → Keeps c d → Keeps d e → Keeps c e
  Keeps-trans k l = record {
    socket_fd = l.socket_fd ∙ k.socket_fd;
    state = l.state ∙ k.state;
    open_now = l.open_now ∙ k.open_now;
  }

  pub Keeps-Inv : (c d : SimpleClient D) → Keeps c d → Inv c → Inv d
  Keeps-Inv c d k v = record {
    owns = λ x. ground (arith, v.owns x, k.socket_fd, k.open_now);
    socket_iff = ap is_set k.socket_fd ∙ v.socket_iff ∙ sym k.state;
  }

  pub connect-keeps_Inv : (a : ConnectAnswers) (c : SimpleClient D) → Inv c → Inv (connect a c).0
  unfolding connect open_fds
  connect-keeps_Inv a c v = record {
    owns = λ x. ground (arith, v.owns x, v.socket_iff);
    socket_iff = ground (arith, v.socket_iff);
  }

  pub disconnect-keeps_Inv : (c : SimpleClient D) → Inv c → Inv (disconnect c)
  unfolding disconnect open_fds
  disconnect-keeps_Inv c v = elim (Option-cases c.socket_fd) [
    | inl e ↦ record {
      owns = λ x. ground (arith, v.owns x, e);
      socket_iff = ground (arith, e, v.socket_iff);
    }
    | inr (fd, e) ↦ record {
      owns = λ x. ground (arith, v.owns x, e, count-remove x fd (open_fds c.effects));
      socket_iff = ground (arith, e, v.socket_iff);
    }
  ]

  pub send_message-Keeps :
      (m : Message) (answer : Option ℕ) (c : SimpleClient D) → Keeps c (send_message m answer c).0
  unfolding send_message open_fds
  send_message-Keeps m answer c = record {
    socket_fd = ground arith;
    state = ground arith;
    open_now = ground arith;
  }

  process_message-Keeps :
      (m : Message) (c d : SimpleClient D) → process_message m c ≡ some d → Keeps c d
  unfolding process_message open_fds
  process_message-Keeps m c d e = record {
    socket_fd = ground (arith, e);
    state = ground (arith, e);
    open_now = ground (arith, e);
  }

module _ {D : Type 0} (F : Floats D) where
  count_and_measure-Keeps :
      (now : ℕ) (m : Message) (c : SimpleClient D) → Keeps c (count_and_measure F now m c)
  unfolding count_and_measure
  count_and_measure-Keeps now m c = record {
    socket_fd = ground arith;
    state = ground arith;
    open_now = ground arith;
  }

  process_one-Keeps :
      (now : ℕ) (m : Message) (c d : SimpleClient D) → process_one F now m c ≡ some d → Keeps c d
  unfolding process_one
  process_one-Keeps now m c d e =
      Keeps-trans (count_and_measure-Keeps now m c)
        (process_message-Keeps m (count_and_measure F now m c) d e)

  pub process_loop-Keeps :
      (fuel : ℕ) (clock : ℕ → ℕ) (bytes : List ℕ) (offset : ℕ) (c d : SimpleClient D)
      → process_loop F fuel clock bytes offset c ≡ some d
      → Keeps c d
  unfolding process_loop
  process_loop-Keeps zero clock bytes offset c d e = absurd (ground (arith, e))
  process_loop-Keeps (suc fuel) clock bytes offset c d e =
      let again = process_loop-Keeps fuel clock bytes (offset + message_size) in
      elim (Bool-cases (leb (offset + message_size) (length bytes))) [
        | inr done ↦ subst (Keeps c) (ground (arith, e, done)) keeps
        | inl more ↦ elim (Option-cases (decode_message (drop offset bytes))) [
          | inl lost ↦ absurd (ground (arith, e, more, lost))
          | inr ((m, rest), read) ↦ elim (Option-cases (process_one F (clock offset) m c)) [
            | inl lost ↦ absurd (ground (arith, e, more, read, lost))
            | inr (u, run) ↦
                Keeps-trans (process_one-Keeps (clock offset) m c u run)
                  (again u d (ground (arith, e, more, read, run)))
          ]
        ]
      ]
