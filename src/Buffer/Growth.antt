-- ===== src/Buffer/Growth.antt =====
-- `dynamic_circular_buffer::write` past the end of the array, which resize_backing replaces.
use daylite.Prelude.{
  ℕ, ◌+◌, ◌*◌, ◌%◌, ◌^◌, ◌≤◌, ◌<◌, ◌≡◌, some, none, List, ◌++◌, arith, length, take_all,
}
use native.Mathlib.Nat.{mod-eq_of_lt}
use daylite.Buffer.{Buffer, can_grow, add_size, read, store, reserve, resize_backing, write, alloc}
use daylite.Buffer.Slices.{slice-blit_self, blit, length-blit}
use daylite.Buffer.Window.{window}
use daylite.Buffer.Bounds.{IsValid, contents, mod_size-some, length-alloc}
use daylite.Buffer.Refine.{length-contents, read_refines, store_refines}

-- The buffer after its array was replaced by one of `n` bytes.
regrown : (ℕ → ℕ) → Buffer → ℕ → Buffer
regrown junk b n = record b {
  head = 0;
  physical_size = n;
  backing = blit (alloc junk n) 0 (contents b);
}

read_all :
    (b : Buffer) → IsValid b → (b' : Buffer) × (read b b.virtual_size ≡ some (contents b, b'))
read_all b v = (
  (read_refines b b.virtual_size v).0,
  ground (
    arith,
    (read_refines b b.virtual_size v).1,
    length-contents b v,
    take_all b.virtual_size (contents b),
  ),
)

resize_backing_lem :
    (junk : ℕ → ℕ) (b : Buffer) (n : ℕ)
    → IsValid b
    → b.physical_size < 1_000_000
    → b.virtual_size ≤ n
    → 0 < n
    → n < 2 ^ 63
    → (resize_backing junk b n ≡ some (regrown junk b n))
      × (contents (regrown junk b n) ≡ contents b)
      × IsValid (regrown junk b n)
unfolding resize_backing regrown window
resize_backing_lem junk b n v g h p q = ground (
  arith,
  (read_all b v).1,
  length-contents b v,
  length-alloc junk n,
  length-blit (alloc junk n) 0 (contents b),
  slice-blit_self (alloc junk n) 0 (contents b),
)

-- Of a valid buffer, a `write` that does not fit moves the bytes to an array of twice the size needed
-- and appends, if the old array is below the limit and the size needed is below 2^31.
pub write_grows :
    (junk : ℕ → ℕ) (b : Buffer) (bytes : List ℕ)
    → IsValid b
    → b.physical_size < length bytes + length (contents b)
    → b.physical_size < 1_000_000
    → length bytes + length (contents b) < 2 ^ 31
    → (b' : Buffer) × (write junk b bytes ≡ some b')
      × (contents b' ≡ contents b ++ bytes)
      × IsValid b'
      × (b'.physical_size ≡ 2 * (length bytes + length (contents b)))
unfolding write reserve regrown
write_grows junk b bytes v full low small = (
  done.0,
  ground (
    arith,
    length-contents b v,
    grown.0,
    grown_size,
    mod_size-some b.virtual_size n,
    done.1,
    at_end,
    small_size,
  ),
  ground (arith, grown, done.2),
  done.3,
  omega (arith, length-contents b v, done.4),
)
  where
    n : ℕ
    n = 2 * (length bytes + b.virtual_size)

    big : Buffer
    big = regrown junk b n

    grown : (resize_backing junk b n ≡ some big) × (contents big ≡ contents b) × IsValid big
    grown =
        resize_backing_lem junk b n v low (omega arith) (omega (arith, length-contents b v))
          (omega (arith, length-contents b v))

    grown_size : (add_size (length bytes) b.virtual_size * 2 % 2 ^ 64) % 2 ^ 32 ≡ n
    grown_size = omega (arith, length-contents b v)

    at_end : b.virtual_size ≡ (0 + b.virtual_size) % n
    at_end =
        omega (
          arith,
          mod-eq_of_lt {n = 0 + b.virtual_size} {m = n} (omega (arith, length-contents b v)),
        )

    small_size : b.virtual_size < 2 ^ 31
    small_size = omega (arith, length-contents b v)

    done :
        (b' : Buffer) × (store big bytes b.virtual_size ≡ some b')
        × (contents b' ≡ contents big ++ bytes)
        × IsValid b'
        × (b'.physical_size ≡ n)
    done = store_refines big bytes b.virtual_size grown.2 (omega arith) at_end

-- Of a valid buffer at the limit, a `write` that does not fit trips the assertion in `resize_backing`.
pub write_refused :
    (junk : ℕ → ℕ) (b : Buffer) (bytes : List ℕ)
    → IsValid b
    → b.physical_size < length bytes + length (contents b)
    → 1_000_000 ≤ b.physical_size
    → length bytes + length (contents b) < 2 ^ 64
    → write junk b bytes ≡ none
unfolding write reserve resize_backing can_grow
write_refused junk b bytes v full big h = ground (arith, length-contents b v)
