-- ===== src/Server/Ownership.antt =====
-- What the server's fields say of its descriptors, and the lemmas on the map of connections.
use hft.Base.{
  ℕ, ◌+◌, ◌≤◌, ◌≡◌, true, false, inl, inr, List, [], ◌∷◌, ◌++◌, Option, some, All, arith, length,
  ◌==◌, Bool-cases,
}
use hft.Message.Types.{MessageType}
use hft.Server.State.{Server, Connection, Service, Effect, find, insert, erase}
use hft.Server.Worker.{deref}
use hft.Server.Content.{Content, log}
use hft.Server.Descriptors.{count, open_fds, held, keys}

-- A stored connection has its key as descriptor, and nobody has authenticated it.
abbrev pub IsKept : ℕ × Connection → Type 0
IsKept (k, c) = (c.fd ≡ some k) × (c.is_authenticated ≡ false)

pub record Inv {D : Type 0} (s : Server D) : Type 0 where
  -- The open descriptors are the listening socket, the epoll instance and the connections.
  pub owns :
      (x : ℕ)
      → count x (open_fds s.effects)
        ≡ held x s.server_socket + held x s.epoll_fd + count x (keys s.connections)
  pub distinct : (x : ℕ) → count x (open_fds s.effects) ≤ 1
  pub kept : All IsKept s.connections
  pub peak : length s.connections ≤ s.stats.peak_connections
  pub is_running : s.running ≡ true

pub find-IsKept :
    (fd : ℕ) (m : List (ℕ × Connection)) (c : Connection)
    → All IsKept m
    → find fd m ≡ some c
    → IsKept (fd, c)
find-IsKept fd [] c h e = absurd (ground arith)
find-IsKept fd ((k, d) ∷ m) c h e = ground (arith, find-IsKept fd m c h.1)

pub erase-IsKept : (fd : ℕ) (m : List (ℕ × Connection)) → All IsKept m → All IsKept (erase fd m)
unfolding erase
erase-IsKept fd [] h = tt
erase-IsKept fd ((k, d) ∷ m) h = ground (arith, erase-IsKept fd m h.1)

pub insert-IsKept :
    (fd : ℕ) (c : Connection) (m : List (ℕ × Connection))
    → IsKept (fd, c)
    → All IsKept m
    → All IsKept (insert fd c m)
unfolding insert
insert-IsKept fd c [] h hs = (h, tt)
insert-IsKept fd c ((k, d) ∷ m) h hs = ground (arith, insert-IsKept fd c m h hs.1)

pub length-erase : (fd : ℕ) (m : List (ℕ × Connection)) → length (erase fd m) ≤ length m
unfolding erase
length-erase fd [] = omega arith
length-erase fd ((k, d) ∷ m) = ground (arith, length-erase fd m)

pub deref-find :
    (p : ℕ) (m : List (ℕ × Connection)) (c : Connection)
    → All IsKept m
    → deref p m ≡ some c
    → (k : ℕ) × (c' : Connection) × (c.fd ≡ some k) × (find k m ≡ some c')
deref-find p [] c h e = absurd (ground arith)
deref-find p ((k, d) ∷ m) c h e = elim (Bool-cases (d.client_id == p)) [
  | inl here ↦ (k, d, ground arith, ground arith)
  | inr there ↦
      let (k', c', f, g) = deref-find p m c h.1 (ground arith) in
      elim (Bool-cases (k == k')) [
        | inl first ↦ (k', d, f, ground arith)
        | inr later ↦ (k', c', f, ground arith)
      ]
]

pub open_fds-log :
    (services : MessageType → Option Service) (n : ℕ) (c : Content) (es : List Effect)
    → open_fds (log services n c ++ es) ≡ open_fds es
unfolding log open_fds
open_fds-log services n c es = ground arith
