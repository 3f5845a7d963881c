-- ===== src/Server/Stale.antt =====
-- An event whose connection another worker has closed meanwhile.
use hft.Base.{ℕ, ◌≤◌, ◌≡◌, refl, inl, inr, List, [], ◌∷◌, none, some, All, arith, ◌==◌, Bool-cases}
use hft.Server.State.{Server, Connection, Floats, find, erase}
use hft.Server.Receive.{Recvs, disconnected, close_connection, receive_loop, handle_client_events}
use hft.Server.Worker.{client, deref, handle_event, handle_events}
use hft.Server.Descriptors.{count, keys, count-find}
use hft.Server.Ownership.{IsKept, Inv, find-IsKept, deref-find}

-- The addresses of the connections that are stored.
unfoldable pub pointers : List (ℕ × Connection) → List ℕ
pointers [] = []
pointers ((k, c) ∷ m) = c.client_id ∷ pointers m

deref-none : (p : ℕ) (m : List (ℕ × Connection)) → count p (pointers m) ≡ 0 → deref p m ≡ none
unfolding pointers
deref-none p [] h = refl
deref-none p ((k, c) ∷ m) h = ground (arith, deref-none p m)

deref-erase :
    (p fd : ℕ) (m : List (ℕ × Connection)) (c : Connection)
    → All IsKept m
    → count fd (keys m) ≤ 1
    → count p (pointers m) ≤ 1
    → deref p m ≡ some c
    → c.fd ≡ some fd
    → deref p (erase fd m) ≡ none
unfolding erase keys pointers
deref-erase p fd [] c h a b e f = refl
deref-erase p fd ((k, d) ∷ m) c h a b e f = elim (Bool-cases (d.client_id == p)) [
  | inl this ↦ ground (arith, deref-none p m, h.0.0)
  | inr other ↦ elim (Bool-cases (k == fd)) [
    | inl same ↦
        let (j, c', g, found) = deref-find p m c h.1 (ground arith) in
        absurd (ground (arith, g, found, count-find j m {c = c'} found))
    | inr apart ↦ ground (arith, deref-erase p fd m c h.1)
  ]
]

module _ {D : Type 0} (F : Floats D) where
  closing_event :
      (p fd : ℕ) (c conn : Connection) (s : Server D)
      → deref p s.connections ≡ some c
      → c.fd ≡ some fd
      → find fd s.connections ≡ some conn
      → handle_event F (client p disconnected) s ≡ some (close_connection conn s)
  unfolding handle_event handle_client_events receive_loop
  closing_event p fd c conn s e f g = ground (arith, e, f, g)

  freed_event :
      (p : ℕ) (answers : Recvs) (s : Server D)
      → deref p s.connections ≡ none
      → handle_event F (client p answers) s ≡ none
  unfolding handle_event
  freed_event p answers s e = ground (arith, e)

  connections-close :
      (fd : ℕ) (conn : Connection) (s : Server D)
      → conn.fd ≡ some fd
      → (close_connection conn s).connections ≡ erase fd s.connections
  unfolding close_connection
  connections-close fd conn s f = ground (arith, f)

  -- Two events for one connection are handled one after the other, as when two workers each took
  -- one before either handled its own. When the first finds the connection closed by the client,
  -- the second faults on the freed connection, whatever `recv` would answer. The server is one
  -- that keeps the invariant, and no two stored connections have one address.
  pub stale_event :
      (p : ℕ) (answers : Recvs) (c : Connection) (s : Server D)
      → Inv s
      → count p (pointers s.connections) ≤ 1
      → deref p s.connections ≡ some c
      → handle_events F (client p disconnected ∷ client p answers ∷ []) s ≡ none
  unfolding handle_events
  stale_event p answers c s v once e =
      let (fd, conn, f, g) = deref-find p s.connections c v.kept e in
      let (f', _) = find-IsKept fd s.connections conn v.kept g in
      let closed = close_connection conn s in
      let one_key : count fd (keys s.connections) ≤ 1 = omega (arith, v.owns fd, v.distinct fd) in
      let gone = deref-erase p fd s.connections c v.kept one_key once e f in
      ground (
        arith,
        closing_event p fd c conn s e f g,
        connections-close fd conn s f',
        gone,
        freed_event p answers closed,
      )
