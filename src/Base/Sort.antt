-- ===== src/Base/Sort.antt =====
-- `std::sort` on numbers, as an insertion sort, and what the result is.
use hft.Base.{
  ℕ, zero, suc, ◌≤◌, ◌<◌, ◌≡◌, refl, ap, ◌∙◌, List, [], ◌∷◌, some, All, arith, length, leb,
  get_elem?, if◌then◌else◌, if_cases, subst,
}
use mathlib.Core.Option.{some-injective}

unfoldable pub insert_sorted : ℕ → List ℕ → List ℕ
insert_sorted x [] = x ∷ []
insert_sorted x (y ∷ ys) = if leb x y then x ∷ y ∷ ys else y ∷ insert_sorted x ys

unfoldable pub sort : List ℕ → List ℕ
unfolding insert_sorted
sort [] = []
sort (x ∷ xs) = insert_sorted x (sort xs)

-- Every entry is at most the ones after it.
abbrev pub IsSorted : List ℕ → Type 0
IsSorted [] = Unit
IsSorted (x ∷ xs) = All (λ y. x ≤ y) xs × IsSorted xs

All-insert_sorted {κ} :
    (P : ℕ → Type κ) (x : ℕ) (l : List ℕ) → P x → All P l → All P (insert_sorted x l)
unfolding insert_sorted
All-insert_sorted P x [] p h = (p, tt)
All-insert_sorted P x (y ∷ l) p (q, h) =
    let rest = All-insert_sorted P x l p h in
    if_cases (All P) (leb x y) (λ _. (p, (q, h))) (λ _. (q, rest))

pub All-sort {κ} : (P : ℕ → Type κ) (l : List ℕ) → All P l → All P (sort l)
unfolding sort
All-sort P [] h = tt
All-sort P (x ∷ l) (p, h) = All-insert_sorted P x (sort l) p (All-sort P l h)

insert_sorted-le :
    (b x : ℕ) (l : List ℕ) → b ≤ x → All (λ y. b ≤ y) l → All (λ y. b ≤ y) (insert_sorted x l)
insert_sorted-le b x l h hs = All-insert_sorted (λ y. b ≤ y) x l h hs

All-le_trans : (a b : ℕ) (l : List ℕ) → a ≤ b → All (λ y. b ≤ y) l → All (λ y. a ≤ y) l
All-le_trans a b [] h hs = tt
All-le_trans a b (y ∷ l) h (k, ks) = (omega arith, All-le_trans a b l h ks)

insert_sorted-IsSorted : (x : ℕ) (l : List ℕ) → IsSorted l → IsSorted (insert_sorted x l)
unfolding insert_sorted
insert_sorted-IsSorted x [] h = (tt, tt)
insert_sorted-IsSorted x (y ∷ l) (h, hs) =
    ground (arith, insert_sorted-IsSorted x l hs, insert_sorted-le y x l, All-le_trans x y l, h, hs)

pub sort-IsSorted : (l : List ℕ) → IsSorted (sort l)
unfolding sort
sort-IsSorted [] = tt
sort-IsSorted (x ∷ l) = insert_sorted-IsSorted x (sort l) (sort-IsSorted l)

length-insert_sorted : (x : ℕ) (l : List ℕ) → length (insert_sorted x l) ≡ suc (length l)
unfolding insert_sorted
length-insert_sorted x [] = refl
length-insert_sorted x (y ∷ l) = ground (arith, length-insert_sorted x l)

pub length-sort : (l : List ℕ) → length (sort l) ≡ length l
unfolding sort
length-sort [] = refl
length-sort (x ∷ l) = length-insert_sorted x (sort l) ∙ ap suc (length-sort l)

pub get_elem?-below : (l : List ℕ) (i : ℕ) → i < length l → (x : ℕ) × (get_elem? l i ≡ some x)
get_elem?-below [] i h = absurd (omega arith)
get_elem?-below (x ∷ l) zero h = (x, refl)
get_elem?-below (x ∷ l) (suc i) h = get_elem?-below l i (omega arith)

pub All-get_elem? {κ} :
    (P : ℕ → Type κ) (l : List ℕ) (i x : ℕ) → All P l → get_elem? l i ≡ some x → P x
All-get_elem? P [] i x h e = absurd (cc e)
All-get_elem? P (y ∷ l) zero x h e = subst P (some-injective _ _ e) h.0
All-get_elem? P (y ∷ l) (suc i) x h e = All-get_elem? P l i x h.1 e

-- Later entries are at least as large.
pub get_elem?-mono :
    (l : List ℕ) (i j x y : ℕ)
    → IsSorted l
    → i ≤ j
    → get_elem? l i ≡ some x
    → get_elem? l j ≡ some y
    → x ≤ y
get_elem?-mono [] i j x y h le e f = absurd (cc e)
get_elem?-mono (z ∷ l) zero zero x y h le e f = ground (arith, e, f)
get_elem?-mono (z ∷ l) zero (suc j) x y h le e f =
    ground (arith, e, All-get_elem? (λ (k : ℕ). z ≤ k) l j y h.0 f)
get_elem?-mono (z ∷ l) (suc i) zero x y h le e f = absurd (omega arith)
get_elem?-mono (z ∷ l) (suc i) (suc j) x y h le e f = get_elem?-mono l i j x y h.1 (omega arith) e f
