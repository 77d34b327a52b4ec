-- ===== src/Buffer.antt =====
-- libdaylite/src/dynamic_circular_buffer.cpp and .hpp: a byte queue over a circular array that grows.
-- An operation that trips an assertion, divides by zero or copies past an array's end is `none`.
pub mod Slices
pub mod Window
pub mod Bounds
pub mod Refine
pub mod Growth
pub mod Script
mod Tests
use daylite.Prelude.{
  ℕ, zero, suc, ◌+◌, ◌-◌, ◌*◌, ◌%◌, ◌^◌, Bool, Option, none, some, List, [], ◌∷◌, ◌++◌, length, ltb,
  leb, ◌==◌, if◌then◌else◌,
}
use Slices.{slice, blit}

pub record Buffer : Type 0 where
  pub head : ℕ
  pub virtual_size : ℕ
  pub physical_size : ℕ
  pub backing : List ℕ

-- size_t addition
abbrev pub add_size : ℕ → ℕ → ℕ
add_size a b = (a + b) % 2 ^ 64

infixl 5 ◌>>=◌
abbrev pub ◌>>=◌ : {A B : Type 0} → Option A → (A → Option B) → Option B
none >>= f = none
some a >>= f = f a

-- memcpy(dst + at, src, length src)
unfoldable pub memcpy : List ℕ → ℕ → List ℕ → Option (List ℕ)
unfolding blit
memcpy dst at src = if leb (at + length src) (length dst) then some (blit dst at src) else none

-- n % d on size_t
unfoldable pub mod_size : ℕ → ℕ → Option ℕ
mod_size n d = if d == 0 then none else some (n % d)

unfoldable pub size : Buffer → ℕ
size b = b.virtual_size

unfoldable pub can_grow : Buffer → Bool
can_grow b = ltb b.physical_size 1_000_000

unfoldable pub contiguous_read_possible : Buffer → ℕ → Bool
contiguous_read_possible b n =
    if leb n b.virtual_size then leb (add_size b.head n) b.physical_size else Bool.false

-- What `read` does after its copies, and all that `discard` does.
advance : Buffer → ℕ → Option Buffer
advance b count = do
  h ← mod_size (add_size b.head count) b.physical_size
  some (record b { head = h; virtual_size = b.virtual_size - count })

clamped : Buffer → ℕ → ℕ
clamped b max_count = if ltb b.virtual_size max_count then b.virtual_size else max_count

-- The bytes that `read` copies to its argument for a clamped count, one copy or two.
read_bytes : Buffer → ℕ → List ℕ
read_bytes b count =
    if leb (add_size b.head count) b.physical_size
    then slice b.backing b.head count
    else slice b.backing b.head (b.physical_size - b.head)
      ++ slice b.backing 0 (count - (b.physical_size - b.head))

-- The count that is returned is the length of the bytes.
unfoldable pub read : Buffer → ℕ → Option (List ℕ × Buffer)
unfolding advance clamped read_bytes slice mod_size
read b max_count = do
  b' ← advance b (clamped b max_count)
  some (read_bytes b (clamped b max_count), b')

unfoldable pub discard : Buffer → ℕ → Option (ℕ × Buffer)
unfolding advance clamped mod_size
discard b max_count = do b' ← advance b (clamped b max_count); some (clamped b max_count, b')

unfoldable pub clear : Buffer → Buffer
clear b = record b { head = 0; virtual_size = 0 }

-- Case 1 of `write` is one copy, case 2 wraps around.
pub store : Buffer → List ℕ → ℕ → Option Buffer
unfolding memcpy slice
store b bytes at =
    if leb (add_size at count) b.physical_size
    then (do
      backing ← memcpy b.backing at bytes
      some (record b { backing = backing; virtual_size = add_size b.virtual_size count }))
    else (do
      upper ← memcpy b.backing at (slice bytes 0 (b.physical_size - at))
      both ← memcpy upper 0 (slice bytes (b.physical_size - at) (count - (b.physical_size - at)))
      some (record b { backing = both; virtual_size = add_size b.virtual_size count }))
  where
    count : ℕ
    count = length bytes

-- A new array holds whatever its memory held: `junk` gives those bytes.
module _ (junk : ℕ → ℕ) where
  unfoldable pub alloc : ℕ → List ℕ
  alloc zero = []
  alloc (suc n) = junk n ∷ alloc n

  unfoldable pub init : ℕ → Buffer
  unfolding alloc
  init capacity = record {
    head = 0;
    virtual_size = 0;
    physical_size = capacity;
    backing = alloc capacity;
  }

  pub resize_backing : Buffer → ℕ → Option Buffer
  unfolding alloc can_grow read memcpy
  resize_backing b new_size =
      if can_grow b
      then (do
        (bytes, _) ← read b b.virtual_size
        fresh ← memcpy (alloc new_size) 0 bytes
        some (record b { head = 0; physical_size = new_size; backing = fresh }))
      else none

  -- The size of the new array is passed as a `uint32_t`.
  pub reserve : Buffer → ℕ → Option Buffer
  unfolding resize_backing
  reserve b count =
      if ltb b.physical_size (add_size count b.virtual_size)
      then resize_backing b ((add_size count b.virtual_size * 2 % 2 ^ 64) % 2 ^ 32)
      else some b

  unfoldable pub write : Buffer → List ℕ → Option Buffer
  unfolding reserve store mod_size
  write b bytes = do
    b' ← reserve b (length bytes)
    at ← mod_size (add_size b'.head b'.virtual_size) b'.physical_size
    store b' bytes at
