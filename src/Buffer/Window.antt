-- ===== src/Buffer/Window.antt =====
-- The bytes of a circular array between two indices.
use daylite.Prelude.{
  ℕ, zero, suc, ◌+◌, ◌-◌, ◌%◌, ◌≤◌, ◌<◌, ◌≡◌, refl, List, ◌++◌, arith, length, leb, if◌then◌else◌,
  length-append, append_assoc, dec_lt, append-nil,
}
use native.Mathlib.Nat.{mod-eq_of_lt, mod-eq-sub-mod}
use daylite.Buffer.Slices.{
  slice, blit, length-slice, slice-join, slice-blit_self, slice-blit_below, slice-blit_above,
  length-blit,
}

-- `n` bytes from `h` on, going round at `cap`.
unfoldable pub window : List ℕ → ℕ → ℕ → ℕ → List ℕ
window s cap h n =
    if leb (h + n) cap then slice s h n else slice s h (cap - h) ++ slice s 0 (n - (cap - h))

-- Where an index stands after less than two rounds.
pub mod_once : (x d : ℕ) → x < d + d → x % d ≡ (if leb d x then x - d else x)
mod_once x d h = elim (dec_lt x d) [
  | yes p ↦ ground (arith, mod-eq_of_lt p)
  | no p ↦ ground (
    arith,
    mod-eq-sub-mod {n = x} {m = d} (omega arith),
    mod-eq_of_lt {n = x - d} {m = d} (omega arith),
  )
]

pub length-window :
    (s : List ℕ) (cap h n : ℕ) → cap ≤ length s → h < cap → n ≤ cap → length (window s cap h n) ≡ n
unfolding window
length-window s cap h n a b c = ground (
  arith,
  length-slice s h n,
  length-slice s h (cap - h),
  length-slice s 0 (n - (cap - h)),
  length-append (slice s h (cap - h)) (slice s 0 (n - (cap - h))),
)

slice_none : (s : List ℕ) (i n : ℕ) → n ≡ 0 → slice s i n ≡ List.[]
unfolding slice
slice_none s i zero e = refl
slice_none s i (suc n) e = absurd (omega arith)

-- A window splits at any point; the second part starts where the first one ends.
pub window-split :
    (s : List ℕ) (cap h n m j k : ℕ)
    → h < cap
    → n + m ≤ cap
    → j ≡ (h + n) % cap
    → k ≡ n + m
    → window s cap h n ++ window s cap j m ≡ window s cap h k
unfolding window
window-split s cap h n m j k a b e f = ground (
  arith,
  mod_once (h + n) cap,
  slice-join s h n (h + n) m k,
  slice-join s h n cap 0 (cap - h),
  slice-join s h n (h + n) (cap - (h + n)) (cap - h),
  slice-join s 0 (h + n - cap) j m (k - (cap - h)),
  append_assoc (slice s h n) (slice s (h + n) (cap - (h + n))) (slice s 0 (m - (cap - (h + n)))),
  append_assoc (slice s h (cap - h)) (slice s 0 (h + n - cap)) (slice s j m),
  slice_none s j m,
  slice_none s 0 m,
  slice_none s h 0,
  append-nil (slice s h n),
)

-- A write behind a window that stays clear of its start leaves the window alone.
window-blit :
    (s : List ℕ) (cap h n at : ℕ) (xs : List ℕ)
    → h < cap
    → n + length xs ≤ cap
    → at ≡ (h + n) % cap
    → at + length xs ≤ cap
    → window (blit s at xs) cap h n ≡ window s cap h n
unfolding window
window-blit s cap h n at xs a b e f = ground (
  arith,
  mod_once (h + n) cap,
  slice-blit_below s at xs h n,
  slice-blit_above s at xs h n,
  slice-blit_above s at xs h (cap - h),
  slice-blit_below s at xs 0 (n - (cap - h)),
)

-- One copy.
pub window-store_once :
    (s : List ℕ) (cap h n at k : ℕ) (xs : List ℕ)
    → h < cap
    → cap ≤ length s
    → n + length xs ≤ cap
    → at ≡ (h + n) % cap
    → at + length xs ≤ cap
    → k ≡ n + length xs
    → window (blit s at xs) cap h k ≡ window s cap h n ++ xs
window-store_once s cap h n at k xs a c b e f g =
    ground (
      arith,
      window-blit s cap h n at xs,
      window-split (blit s at xs) cap h n (length xs) at k,
      last,
    )
  where
    last : window (blit s at xs) cap at (length xs) ≡ xs
    last = unfold window in ground (arith, slice-blit_self s at xs)

-- Two copies: up to the end of the array, and from its start.
pub window-store_twice :
    (s : List ℕ) (cap h n at k : ℕ) (up lo : List ℕ)
    → h < cap
    → cap ≤ length s
    → n + (length up + length lo) ≤ cap
    → at ≡ (h + n) % cap
    → at + length up ≡ cap
    → k ≡ n + (length up + length lo)
    → window (blit (blit s at up) 0 lo) cap h k ≡ window s cap h n ++ (up ++ lo)
window-store_twice s cap h n at k up lo a c b e f g = ground (
  arith,
  mod_once (h + n) cap,
  mod_once (h + (n + length up)) cap,
  length-blit s at up,
  window-store_once s cap h n at (n + length up) up,
  window-store_once (blit s at up) cap h (n + length up) 0 k lo,
  append_assoc (window s cap h n) up lo,
)
