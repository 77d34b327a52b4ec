-- ===== src/Prelude/Bits.antt =====
-- Bits of native numbers: `&` with a mask of ones, and the laws of `^`.
use Prim.Native.Nat.{
  ℕ, zero, suc, ◌+◌, ◌*◌, ◌/◌, ◌%◌, ◌^◌, ◌≤◌, ◌<◌, min, differ, digits, bit_and, bit_xor,
  bit_and-bitwise, bit_xor-bitwise,
}
use mathlib.Core.Path.{◌≡◌, refl, sym, ap, ◌∙◌}
use mathlib.Core.Bool.{Bool, true, ◌&&◌}
use native.Mathlib.Omega.{arith}
use native.Mathlib.Nat.{pow-suc, pow-succ', one-le-pow, div-div-eq-div-mul}

-- A count of digits that covers the first number is as good as any other.
digits-cover :
    (z : ℕ → ℕ) (f : ℕ → ℕ → ℕ) (n m a b : ℕ) → a ≤ n → a ≤ m → digits z f n a b ≡ digits z f m a b
digits-cover z f zero zero a b p q = refl
digits-cover z f zero (suc m) zero b p q = refl
digits-cover z f zero (suc m) (suc a) b p q = absurd (omega arith)
digits-cover z f (suc n) zero zero b p q = refl
digits-cover z f (suc n) zero (suc a) b p q = absurd (omega arith)
digits-cover z f (suc n) (suc m) zero b p q = refl
digits-cover z f (suc n) (suc m) (suc a) b p q =
    ap (λ t. t * 2 + f (suc a % 2) (b % 2))
      (digits-cover z f n m (suc a / 2) (b / 2) (omega arith) (omega arith))

pub bit_and_low : (a b : ℕ) → bit_and a b ≡ bit_and (a / 2) (b / 2) * 2 + min (a % 2) (b % 2)
bit_and_low zero b = omega (arith, bit_and-bitwise 0 b, bit_and-bitwise 0 (b / 2))
bit_and_low (suc a) b = omega (
  arith,
  bit_and-bitwise (suc a) b,
  bit_and-bitwise (suc a / 2) (b / 2),
  digits-cover (λ t. 0) min a (suc a / 2) (suc a / 2) (b / 2) (omega arith) (omega arith),
)

-- Two bits differ when their sum is odd.
differ-sum : (x y : ℕ) → x < 2 → y < 2 → differ x y ≡ (x + y) % 2
differ-sum zero zero p q = refl
differ-sum zero (suc y) p q = omega arith
differ-sum (suc zero) zero p q = refl
differ-sum (suc zero) (suc zero) p q = refl
differ-sum (suc zero) (suc (suc y)) p q = absurd (omega arith)
differ-sum (suc (suc x)) y p q = absurd (omega arith)

pub bit_xor_low : (a b : ℕ) → bit_xor a b ≡ bit_xor (a / 2) (b / 2) * 2 + (a + b) % 2
bit_xor_low zero b = omega (arith, bit_xor-bitwise 0 b, bit_xor-bitwise 0 (b / 2))
bit_xor_low (suc a) b = omega (
  arith,
  bit_xor-bitwise (suc a) b,
  bit_xor-bitwise (suc a / 2) (b / 2),
  differ-sum (suc a % 2) (b % 2) (omega arith) (omega arith),
  digits-cover (λ t. t) differ a (suc a / 2) (suc a / 2) (b / 2) (omega arith) (omega arith),
)

pub bit_xor_half : (a b : ℕ) → bit_xor a b / 2 ≡ bit_xor (a / 2) (b / 2)
bit_xor_half a b = omega (arith, bit_xor_low a b)

pub zero-bit_xor : (b : ℕ) → bit_xor 0 b ≡ b
zero-bit_xor b = bit_xor-bitwise 0 b

-- The laws that go from the halves of the numbers to the numbers, with a bound on them to recur on.
bit_xor-zero_below : (n a : ℕ) → a ≤ n → bit_xor a 0 ≡ a
bit_xor-zero_below n zero h = zero-bit_xor 0
bit_xor-zero_below zero (suc a) h = absurd (omega arith)
bit_xor-zero_below (suc n) (suc a) h =
    omega (arith, bit_xor_low (suc a) 0, bit_xor-zero_below n (suc a / 2) (omega arith))

pub bit_xor-zero : (a : ℕ) → bit_xor a 0 ≡ a
bit_xor-zero a = bit_xor-zero_below a a (omega arith)

comm_below : (n a b : ℕ) → a ≤ n → bit_xor a b ≡ bit_xor b a
comm_below n zero b h = omega (arith, zero-bit_xor b, bit_xor-zero b)
comm_below zero (suc a) b h = absurd (omega arith)
comm_below (suc n) (suc a) b h = omega (
  arith,
  bit_xor_low (suc a) b,
  bit_xor_low b (suc a),
  comm_below n (suc a / 2) (b / 2) (omega arith),
)

pub bit_xor_comm : (a b : ℕ) → bit_xor a b ≡ bit_xor b a
bit_xor_comm a b = comm_below a a b (omega arith)

self_below : (n a : ℕ) → a ≤ n → bit_xor a a ≡ 0
self_below n zero h = zero-bit_xor 0
self_below zero (suc a) h = absurd (omega arith)
self_below (suc n) (suc a) h =
    omega (arith, bit_xor_low (suc a) (suc a), self_below n (suc a / 2) (omega arith))

pub bit_xor_self : (a : ℕ) → bit_xor a a ≡ 0
bit_xor_self a = self_below a a (omega arith)

right_comm_below : (n a b c : ℕ) → a ≤ n → bit_xor (bit_xor a b) c ≡ bit_xor (bit_xor a c) b
right_comm_below n zero b c h = rw (zero-bit_xor b, zero-bit_xor c) (bit_xor_comm b c)
right_comm_below zero (suc a) b c h = absurd (omega arith)
right_comm_below (suc n) (suc a) b c h = omega (
  arith,
  bit_xor_low (bit_xor (suc a) b) c,
  bit_xor_low (bit_xor (suc a) c) b,
  bit_xor_low (suc a) b,
  bit_xor_low (suc a) c,
  ap (λ t. bit_xor t (c / 2)) (bit_xor_half (suc a) b),
  ap (λ t. bit_xor t (b / 2)) (bit_xor_half (suc a) c),
  right_comm_below n (suc a / 2) (b / 2) (c / 2) (omega arith),
)

pub bit_xor_right_comm : (a b c : ℕ) → bit_xor (bit_xor a b) c ≡ bit_xor (bit_xor a c) b
bit_xor_right_comm a b c = right_comm_below a a b c (omega arith)

-- What was put in by `^` is taken out by it.
pub bit_xor_cancel : (a b : ℕ) → bit_xor (bit_xor a b) b ≡ a
bit_xor_cancel a b =
    ap (λ t. bit_xor t b) (bit_xor_comm a b)
    ∙ bit_xor_right_comm b a b
    ∙ ap (λ t. bit_xor t a) (bit_xor_self b)
    ∙ zero-bit_xor a

-- The high digits of `^` are those of its arguments, and it stays within their width.
div-two-pow-suc : (k a : ℕ) → a / 2 ^ suc k ≡ a / 2 / 2 ^ k
div-two-pow-suc k a = ap (λ t. a / t) (pow-succ' 2 k) ∙ sym (div-div-eq-div-mul a 2 (2 ^ k))

pub bit_xor-div : (k a b : ℕ) → bit_xor a b / 2 ^ k ≡ bit_xor (a / 2 ^ k) (b / 2 ^ k)
bit_xor-div zero a b = rw (div_one a, div_one b) (div_one _)
  where
    div_one : (n : ℕ) → n / 1 ≡ n
    div_one n = omega arith
bit_xor-div (suc k) a b =
    rw (div-two-pow-suc k a, div-two-pow-suc k b, div-two-pow-suc k (bit_xor a b), bit_xor_half a b)
      (bit_xor-div k (a / 2) (b / 2))

pub bit_xor-lt : (k a b : ℕ) → a < 2 ^ k → b < 2 ^ k → bit_xor a b < 2 ^ k
bit_xor-lt zero zero zero p q = omega (arith, zero-bit_xor 0)
bit_xor-lt zero zero (suc b) p q = absurd (omega arith)
bit_xor-lt zero (suc a) b p q = absurd (omega arith)
bit_xor-lt (suc k) a b p q = ground (
  arith,
  pow-suc 2 k,
  bit_xor_low a b,
  bit_xor-lt k (a / 2) (b / 2) (omega (arith, pow-suc 2 k)) (omega (arith, pow-suc 2 k)),
)

mod-two-pow-suc : (k a : ℕ) → a % 2 ^ suc k ≡ a / 2 % 2 ^ k * 2 + a % 2
mod-two-pow-suc k a = omega (
  arith,
  one-le-pow k 2,
  pow-suc 2 k,
  ap (λ t. 2 ^ suc k * t) (div-two-pow-suc k a),
  ap (λ t. t * (a / 2 / 2 ^ k)) (pow-succ' 2 k),
)

bit_and-zero_below : (n a : ℕ) → a ≤ n → bit_and a 0 ≡ 0
bit_and-zero_below n zero h = omega (arith, bit_and-bitwise 0 0)
bit_and-zero_below zero (suc a) h = absurd (omega arith)
bit_and-zero_below (suc n) (suc a) h =
    omega (arith, bit_and_low (suc a) 0, bit_and-zero_below n (suc a / 2) (omega arith))

pub bit_and_mask : (k a m : ℕ) → m + 1 ≡ 2 ^ k → bit_and a m ≡ a % 2 ^ k
bit_and_mask zero a zero h = omega (arith, bit_and-zero_below a a (omega arith))
bit_and_mask zero a (suc m) h = absurd (omega arith)
bit_and_mask (suc k) a m h = omega (
  arith,
  pow-suc 2 k,
  bit_and_low a m,
  mod-two-pow-suc k a,
  bit_and_mask k (a / 2) (m / 2) (omega (arith, pow-suc 2 k)),
)

-- A table that is checked by evaluation at each number below a bound.
abbrev pub all_below : ℕ → (ℕ → Bool) → Bool
all_below zero p = true
all_below (suc n) p = p n && all_below n p

pub all_below-holds : (n : ℕ) (p : ℕ → Bool) (x : ℕ) → all_below n p ≡ true → x < n → p x ≡ true
all_below-holds zero p x h lt = absurd (omega arith)
all_below-holds (suc n) p x h lt = ground (arith, all_below-holds n p x)

-- A number is its low bits and its high bits, put together by `^`.
pub bit_xor-split : (k a : ℕ) → bit_xor (a % 2 ^ k) (2 ^ k * (a / 2 ^ k)) ≡ a
bit_xor-split zero a =
    omega (arith, ap (λ t. bit_xor t (1 * (a / 1))) none_low, zero-bit_xor (1 * (a / 1)))
  where
    none_low : a % 1 ≡ 0
    none_low = omega arith
bit_xor-split (suc k) a = omega (
  arith,
  bit_xor_low (a % 2 ^ suc k) (2 ^ suc k * (a / 2 ^ suc k)),
  ap (λ t. bit_xor t (2 ^ suc k * (a / 2 ^ suc k) / 2)) low_half,
  ap (bit_xor (a / 2 % 2 ^ k)) high_half,
  mod-two-pow-suc k a,
  high,
  bit_xor-split k (a / 2),
)
  where
    high : 2 ^ suc k * (a / 2 ^ suc k) ≡ 2 * (2 ^ k * (a / 2 / 2 ^ k))
    high = omega (
      arith,
      ap (λ t. 2 ^ suc k * t) (div-two-pow-suc k a),
      ap (λ t. t * (a / 2 / 2 ^ k)) (pow-succ' 2 k),
    )

    low_half : a % 2 ^ suc k / 2 ≡ a / 2 % 2 ^ k
    low_half = omega (arith, mod-two-pow-suc k a)

    high_half : 2 ^ suc k * (a / 2 ^ suc k) / 2 ≡ 2 ^ k * (a / 2 / 2 ^ k)
    high_half = omega (arith, high)
