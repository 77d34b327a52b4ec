-- ===== src/Buffer/Bounds.antt =====
-- The representation invariant of `dynamic_circular_buffer`, and the bytes that it holds.
use daylite.Prelude.{ℕ, zero, suc, ◌%◌, ◌^◌, ◌≤◌, ◌<◌, ◌≡◌, some, List, arith, length}
use daylite.Buffer.{Buffer, mod_size, alloc, init}
use daylite.Buffer.Window.{window}

pub record IsValid (b : Buffer) : Type 0 where
  pub positive : 0 < b.physical_size
  pub small : b.physical_size < 2 ^ 63
  pub stored : length b.backing ≡ b.physical_size
  pub head_in : b.head < b.physical_size
  pub size_in : b.virtual_size ≤ b.physical_size

-- The bytes held, oldest first.
abbrev pub contents : Buffer → List ℕ
contents b = window b.backing b.physical_size b.head b.virtual_size

pub length-alloc : (junk : ℕ → ℕ) (n : ℕ) → length (alloc junk n) ≡ n
unfolding alloc
length-alloc junk zero = omega arith
length-alloc junk (suc n) = omega (arith, length-alloc junk n)

pub init-IsValid : (junk : ℕ → ℕ) (c : ℕ) → 0 < c → c < 2 ^ 63 → IsValid (init junk c)
unfolding init
init-IsValid junk c p q = omega (arith, length-alloc junk c)

pub mod_size-some : (n d : ℕ) → 0 < d → mod_size n d ≡ some (n % d)
unfolding mod_size
mod_size-some n d h = ground arith
