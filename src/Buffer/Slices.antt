-- ===== src/Buffer/Slices.antt =====
-- Copies out of and into an array: a slice of a list, and a list written over a part of another.
use daylite.Prelude.{
  ℕ, zero, suc, ◌+◌, ◌≤◌, ◌≡◌, refl, ap, List, [], ◌∷◌, ◌++◌, arith, length, take, drop,
  length-take, length-drop,
}

unfoldable pub slice : List ℕ → ℕ → ℕ → List ℕ
slice b i n = take n (drop i b)

unfoldable pub blit : List ℕ → ℕ → List ℕ → List ℕ
blit [] i xs = []
blit (b ∷ bs) (suc i) xs = b ∷ blit bs i xs
blit (b ∷ bs) zero [] = b ∷ bs
blit (b ∷ bs) zero (x ∷ xs) = x ∷ blit bs zero xs

pub length-slice : (b : List ℕ) (i n : ℕ) → i + n ≤ length b → length (slice b i n) ≡ n
unfolding slice
length-slice b i n h = omega (arith, length-take n (drop i b), length-drop i b)

-- Two slices that meet make one.
pub slice-join :
    (b : List ℕ) (i n j m k : ℕ) → i + n ≡ j → n + m ≡ k → slice b i n ++ slice b j m ≡ slice b i k
unfolding slice
slice-join b zero zero zero m k p q = ap (λ t. take t b) q'
  where
    q' : m ≡ k
    q' = omega arith
slice-join b zero zero (suc j) m k p q = absurd (omega arith)
slice-join [] zero (suc n) zero m k p q = absurd (omega arith)
slice-join (x ∷ b) zero (suc n) zero m k p q = absurd (omega arith)
slice-join [] zero (suc n) (suc j) m zero p q = absurd (omega arith)
slice-join [] zero (suc n) (suc j) zero (suc k) p q = refl
slice-join [] zero (suc n) (suc j) (suc m) (suc k) p q = refl
slice-join (x ∷ b) zero (suc n) (suc j) m zero p q = absurd (omega arith)
slice-join (x ∷ b) zero (suc n) (suc j) m (suc k) p q =
    ap (◌∷◌ x) (slice-join b zero n j m k (omega arith) (omega arith))
slice-join b (suc i) n zero m k p q = absurd (omega arith)
slice-join [] (suc i) zero (suc j) zero zero p q = refl
slice-join [] (suc i) zero (suc j) zero (suc k) p q = absurd (omega arith)
slice-join [] (suc i) zero (suc j) (suc m) zero p q = absurd (omega arith)
slice-join [] (suc i) zero (suc j) (suc m) (suc k) p q = refl
slice-join [] (suc i) (suc n) (suc j) m zero p q = absurd (omega arith)
slice-join [] (suc i) (suc n) (suc j) zero (suc k) p q = refl
slice-join [] (suc i) (suc n) (suc j) (suc m) (suc k) p q = refl
slice-join (x ∷ b) (suc i) n (suc j) m k p q = slice-join b i n j m k (omega arith) (omega arith)

pub length-blit : (b : List ℕ) (i : ℕ) (xs : List ℕ) → length (blit b i xs) ≡ length b
unfolding blit
length-blit [] i xs = refl
length-blit (b ∷ bs) (suc i) xs = ap suc (length-blit bs i xs)
length-blit (b ∷ bs) zero [] = refl
length-blit (b ∷ bs) zero (x ∷ xs) = ap suc (length-blit bs zero xs)

-- What was written is read back.
pub slice-blit_self :
    (b : List ℕ) (i : ℕ) (xs : List ℕ)
    → i + length xs ≤ length b
    → slice (blit b i xs) i (length xs) ≡ xs
unfolding slice blit
slice-blit_self [] zero [] h = refl
slice-blit_self [] (suc i) [] h = refl
slice-blit_self [] i (x ∷ xs) h = absurd (omega arith)
slice-blit_self (b ∷ bs) (suc i) xs h = slice-blit_self bs i xs (omega arith)
slice-blit_self (b ∷ bs) zero [] h = refl
slice-blit_self (b ∷ bs) zero (x ∷ xs) h = ap (◌∷◌ x) (slice-blit_self bs zero xs (omega arith))

-- What lies beside is left alone.
pub slice-blit_below :
    (b : List ℕ) (i : ℕ) (xs : List ℕ) (j n : ℕ) → j + n ≤ i → slice (blit b i xs) j n ≡ slice b j n
unfolding slice blit
slice-blit_below [] i xs j n h = refl
slice-blit_below (b ∷ bs) zero xs zero zero h = refl
slice-blit_below (b ∷ bs) zero xs (suc j) n h = absurd (omega arith)
slice-blit_below (b ∷ bs) zero xs zero (suc n) h = absurd (omega arith)
slice-blit_below (b ∷ bs) (suc i) xs (suc j) n h = slice-blit_below bs i xs j n (omega arith)
slice-blit_below (b ∷ bs) (suc i) xs zero zero h = refl
slice-blit_below (b ∷ bs) (suc i) xs zero (suc n) h =
    ap (◌∷◌ b) (slice-blit_below bs i xs zero n (omega arith))

pub slice-blit_above :
    (b : List ℕ) (i : ℕ) (xs : List ℕ) (j n : ℕ)
    → i + length xs ≤ j
    → slice (blit b i xs) j n ≡ slice b j n
unfolding slice blit
slice-blit_above [] i xs j n h = refl
slice-blit_above (b ∷ bs) zero [] j n h = refl
slice-blit_above (b ∷ bs) zero (x ∷ xs) zero n h = absurd (omega arith)
slice-blit_above (b ∷ bs) zero (x ∷ xs) (suc j) n h = slice-blit_above bs zero xs j n (omega arith)
slice-blit_above (b ∷ bs) (suc i) xs zero n h = absurd (omega arith)
slice-blit_above (b ∷ bs) (suc i) xs (suc j) n h = slice-blit_above bs i xs j n (omega arith)
