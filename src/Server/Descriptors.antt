-- ===== src/Server/Descriptors.antt =====
-- The descriptors that the server has opened and not closed, by its effects, against those that
-- its fields hold.
use hft.Base.{ℕ, suc, ◌-◌, ◌<◌, ◌≡◌, List, [], ◌∷◌, Option, none, some, arith, ◌==◌, if◌then◌else◌}
use hft.Server.State.{Connection, Effect, opened, closed, find, insert, erase}

abbrev pub count : ℕ → List ℕ → ℕ
count x [] = 0
count x (y ∷ ys) = if x == y then suc (count x ys) else count x ys

-- A closed descriptor is taken off once.
abbrev pub remove : ℕ → List ℕ → List ℕ
remove x [] = []
remove x (y ∷ ys) = if x == y then ys else y ∷ remove x ys

unfoldable pub open_fds : List Effect → List ℕ
open_fds [] = []
open_fds (opened fd ∷ es) = fd ∷ open_fds es
open_fds (closed (some fd) ∷ es) = remove fd (open_fds es)
open_fds (_ ∷ es) = open_fds es

abbrev pub held : ℕ → Option ℕ → ℕ
held x none = 0
held x (some fd) = if x == fd then 1 else 0

unfoldable pub keys : List (ℕ × Connection) → List ℕ
keys [] = []
keys ((k, c) ∷ m) = k ∷ keys m

pub count-remove :
    (x y : ℕ) (l : List ℕ) → count x (remove y l) ≡ (if x == y then count x l - 1 else count x l)
count-remove x y [] = ground arith
count-remove x y (z ∷ l) = ground (arith, count-remove x y l)

pub count-erase :
    (x fd : ℕ) (m : List (ℕ × Connection))
    → count x (keys (erase fd m)) ≡ (if x == fd then count x (keys m) - 1 else count x (keys m))
unfolding keys erase
count-erase x fd [] = ground arith
count-erase x fd ((k, c) ∷ m) = ground (arith, count-erase x fd m)

pub count-insert :
    (x fd : ℕ) (c : Connection) (m : List (ℕ × Connection))
    → count fd (keys m) ≡ 0
    → count x (keys (insert fd c m))
      ≡ (if x == fd then suc (count x (keys m)) else count x (keys m))
unfolding keys insert
count-insert x fd c [] h = ground arith
count-insert x fd c ((k, d) ∷ m) h = ground (arith, count-insert x fd c m)

pub count-find :
    (fd : ℕ) (m : List (ℕ × Connection)) {c : Connection}
    → find fd m ≡ some c
    → 0 < count fd (keys m)
unfolding keys
count-find fd [] h = absurd (ground arith)
count-find fd ((k, d) ∷ m) {c} h = ground (arith, count-find fd m {c = c})
