-- ===== src/Message/Codec/Numbers.antt =====
-- Laws of the readers and writers of one field.
use native.Mathlib.Nat.{pow-suc}
use native.Mathlib.Decide.{dec_lt}
use hft.Base.{
  ℕ, zero, suc, ◌+◌, ◌*◌, ◌/◌, ◌^◌, ◌<◌, ◌≡◌, refl, ap, List, [], ◌∷◌, ◌++◌, none, some, arith,
  length, sym, ◌∙◌, append_assoc, take, drop, length-take, length-drop, take-append-drop,
}
use hft.Message.Codec.{put, get, get_bytes, Reader, pure, ◌>>=◌}

pub get-put : (n v : ℕ) (rest : List ℕ) → v < 256 ^ n → get n (put n v ++ rest) ≡ some (v, rest)
unfolding get put
get-put zero v rest h = ground arith
get-put (suc n) v rest h =
    rw (get-put n (v / 256) rest (omega (arith, pow-suc 256 n)), get) (ground arith)

pub get_bytes-append :
    (n : ℕ) (xs rest : List ℕ) → length xs ≡ n → get_bytes n (xs ++ rest) ≡ some (xs, rest)
unfolding get_bytes
get_bytes-append zero [] rest h = refl
get_bytes-append zero (x ∷ xs) rest h = absurd (omega arith)
get_bytes-append (suc n) [] rest h = absurd (omega arith)
get_bytes-append (suc n) (x ∷ xs) rest h =
    rw (get_bytes-append n xs rest (omega arith), get_bytes) refl

pub length-put : (n v : ℕ) → length (put n v) ≡ n
unfolding put
length-put zero v = refl
length-put (suc n) v = ap suc (length-put n (v / 256))

-- The reader takes exactly the first `n` bytes, its value depends on these alone, and with fewer it
-- fails.
pub record Reads {A : Type 0} (n : ℕ) (m : Reader A) : Type 0 where
  pub reads :
      (bs : List ℕ) → length bs ≡ n → (a : A) × ((rest : List ℕ) → m (bs ++ rest) ≡ some (a, rest))
  pub needs : (bs : List ℕ) → length bs < n → m bs ≡ none

get-some :
    (n : ℕ) (bs : List ℕ)
    → length bs ≡ n
    → (v : ℕ) × ((rest : List ℕ) → get n (bs ++ rest) ≡ some (v, rest))
unfolding get
get-some zero [] h = (0, λ rest. refl)
get-some zero (x ∷ xs) h = absurd (omega arith)
get-some (suc n) [] h = absurd (omega arith)
get-some (suc n) (x ∷ xs) h =
    let (v, e) = get-some n xs (omega arith) in (x + 256 * v, λ rest. rw (e rest, get) refl)

get-none : (n : ℕ) (bs : List ℕ) → length bs < n → get n bs ≡ none
unfolding get
get-none zero bs h = elim h [ ]
get-none (suc n) [] h = refl
get-none (suc n) (b ∷ bs) h = rw (get-none n bs (omega arith), get) refl

get_bytes-none : (n : ℕ) (bs : List ℕ) → length bs < n → get_bytes n bs ≡ none
unfolding get_bytes
get_bytes-none zero bs h = elim h [ ]
get_bytes-none (suc n) [] h = refl
get_bytes-none (suc n) (b ∷ bs) h = rw (get_bytes-none n bs (omega arith), get_bytes) refl

pub get-Reads : (n : ℕ) → Reads n (get n)
get-Reads n = record { reads = get-some n; needs = get-none n }

pub get_bytes-Reads : (n : ℕ) → Reads n (get_bytes n)
get_bytes-Reads n = record {
  reads = λ bs h. (bs, λ rest. get_bytes-append n bs rest h);
  needs = get_bytes-none n;
}

pure-some :
    {A : Type 0} (a : A) (bs : List ℕ)
    → length bs ≡ 0
    → (b : A) × ((rest : List ℕ) → pure a (bs ++ rest) ≡ some (b, rest))
pure-some a [] h = (a, λ rest. refl)
pure-some a (x ∷ xs) h = absurd (omega arith)

pub pure-Reads : {A : Type 0} (a : A) → Reads 0 (pure a)
pure-Reads a = record { reads = pure-some a; needs = λ bs h. elim h [ ] }

pub >>=-some :
    {A B : Type 0} (m : Reader A) (f : A → Reader B) {bs rest : List ℕ} {a : A}
    → m bs ≡ some (a, rest)
    → (m >>= f) bs ≡ f a rest
>>=-some m f h = rw (h, ◌>>=◌)

-- One field of a decoder against the same field of an encoder.
pub >>=-put :
    {B : Type 0} (n v : ℕ) (f : ℕ → Reader B) (rest : List ℕ)
    → v < 256 ^ n
    → (get n >>= f) (put n v ++ rest) ≡ f v rest
>>=-put n v f rest h = >>=-some (get n) f (get-put n v rest h)

pub >>=-bytes :
    {B : Type 0} (n : ℕ) (xs : List ℕ) (f : List ℕ → Reader B) (rest : List ℕ)
    → length xs ≡ n
    → (get_bytes n >>= f) (xs ++ rest) ≡ f xs rest
>>=-bytes n xs f rest h = >>=-some (get_bytes n) f (get_bytes-append n xs rest h)

pub >>=-Reads :
    {A B : Type 0} (n k : ℕ) (m : Reader A) (f : A → Reader B)
    → Reads n m
    → ((a : A) → Reads k (f a))
    → Reads (n + k) (m >>= f)
>>=-Reads {B = B} n k m f hm hf = record { reads = both; needs = short }
  where
    cut : (bs rest : List ℕ) → bs ++ rest ≡ take n bs ++ (drop n bs ++ rest)
    cut bs rest =
        ap (λ (l : List ℕ). l ++ rest) (sym (take-append-drop n bs))
        ∙ append_assoc (take n bs) (drop n bs) rest

    both :
        (bs : List ℕ)
        → length bs ≡ n + k
        → (b : B) × ((rest : List ℕ) → (m >>= f) (bs ++ rest) ≡ some (b, rest))
    both bs h =
        let (a, first) = hm.reads (take n bs) (omega (arith, length-take n bs)) in
        let (b, second) = (hf a).reads (drop n bs) (omega (arith, length-drop n bs)) in
        (b, λ rest. rw (cut bs rest) (>>=-some m f (first (drop n bs ++ rest)) ∙ second rest))

    whole : (bs : List ℕ) → bs ≡ take n bs ++ drop n bs
    whole bs = sym (take-append-drop n bs)

    short : (bs : List ℕ) → length bs < n + k → (m >>= f) bs ≡ none
    short bs h = elim (dec_lt (length bs) n) [
      | yes p ↦ rw (hm.needs bs p, ◌>>=◌) refl
      | no p ↦
          let (a, first) = hm.reads (take n bs) (omega (arith, length-take n bs)) in
          ap (m >>= f) (whole bs)
          ∙ >>=-some m f (first (drop n bs))
          ∙ (hf a).needs (drop n bs) (omega (arith, length-drop n bs))
    ]
