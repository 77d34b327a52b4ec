-- ===== src/Buffer/Refine.antt =====
-- `read`, `discard`, `clear` and a `write` that fits, against a queue of the bytes that a valid buffer
-- holds.
use daylite.Prelude.{
  ℕ, ◌+◌, ◌-◌, ◌%◌, ◌≤◌, ◌≡◌, refl, some, List, ◌++◌, arith, length, leb, if◌then◌else◌, take, drop,
  min, take-append_left, drop-append_left, take-append-drop, length-drop, take_all,
}
use daylite.Buffer.{
  Buffer, add_size, read_bytes, advance, clamped, read, discard, clear, store, write,
}
use daylite.Buffer.Slices.{slice, length-slice, blit, length-blit}
use daylite.Buffer.Window.{
  window, mod_once, length-window, window-split, window-store_once, window-store_twice,
}
use daylite.Buffer.Bounds.{IsValid, contents, mod_size-some}

pub length-contents : (b : Buffer) → IsValid b → length (contents b) ≡ b.virtual_size
length-contents b v =
    length-window b.backing b.physical_size b.head b.virtual_size (omega arith) v.head_in v.size_in

clamped-eq-min : (b : Buffer) (n : ℕ) → clamped b n ≡ min n b.virtual_size
unfolding clamped
clamped-eq-min b n = ground arith

-- What `advance` leaves.
advanced : Buffer → ℕ → Buffer
advanced b count = record b {
  head = (b.head + count) % b.physical_size;
  virtual_size = b.virtual_size - count;
}

advance_lem :
    (b : Buffer) (count : ℕ)
    → IsValid b
    → count ≤ b.virtual_size
    → (advance b count ≡ some (advanced b count)) × IsValid (advanced b count)
unfolding advance advanced
advance_lem b count v h = ground (
  arith,
  mod_size-some (add_size b.head count) b.physical_size,
  mod_once (b.head + count) b.physical_size,
)

read_bytes_lem :
    (b : Buffer) (count : ℕ)
    → IsValid b
    → count ≤ b.virtual_size
    → read_bytes b count ≡ window b.backing b.physical_size b.head count
unfolding read_bytes window
read_bytes_lem b count v h = ground arith

-- The contents are what is read, then what is left.
contents-split :
    (b : Buffer) (count : ℕ)
    → IsValid b
    → count ≤ b.virtual_size
    → window b.backing b.physical_size b.head count ++ contents (advanced b count) ≡ contents b
unfolding advanced
contents-split b count v h =
    window-split b.backing b.physical_size b.head count (b.virtual_size - count) _ b.virtual_size
      v.head_in (omega arith) refl (omega arith)

take-contents :
    (b : Buffer) (count : ℕ)
    → IsValid b
    → count ≤ b.virtual_size
    → (window b.backing b.physical_size b.head count ≡ take count (contents b))
      × (contents (advanced b count) ≡ drop count (contents b))
take-contents b count v h = ground (
  arith,
  contents-split b count v h,
  length-window b.backing b.physical_size b.head count,
  take-append_left (window b.backing b.physical_size b.head count) (contents (advanced b count)),
  drop-append_left (window b.backing b.physical_size b.head count) (contents (advanced b count)),
)

-- `read` never faults on a valid buffer: it returns the oldest bytes, at most `max_count` of them,
-- and leaves the others in order.
pub read_refines :
    (b : Buffer) (max_count : ℕ)
    → IsValid b
    → (b' : Buffer) × (read b max_count
        ≡ some (take (min max_count (length (contents b))) (contents b), b'))
      × (contents b' ≡ drop (min max_count (length (contents b))) (contents b))
      × IsValid b'
unfolding read
read_refines b max_count v = (
  advanced b n,
  ground (
    arith,
    clamped-eq-min b max_count,
    length-contents b v,
    advance_lem b n v,
    read_bytes_lem b n v,
    take-contents b n v,
  ),
  ground (arith, clamped-eq-min b max_count, length-contents b v, take-contents b n v),
  (advance_lem b n v (omega (arith, clamped-eq-min b max_count))).1,
)
  where
    n : ℕ
    n = clamped b max_count

-- `discard` drops what `read` would return, and says how many bytes those were.
pub discard_refines :
    (b : Buffer) (max_count : ℕ)
    → IsValid b
    → (b' : Buffer) × (discard b max_count ≡ some (min max_count (length (contents b)), b'))
      × (contents b' ≡ drop (min max_count (length (contents b))) (contents b))
      × IsValid b'
unfolding discard
discard_refines b max_count v = (
  advanced b n,
  ground (arith, clamped-eq-min b max_count, length-contents b v, advance_lem b n v),
  ground (arith, clamped-eq-min b max_count, length-contents b v, take-contents b n v),
  (advance_lem b n v (omega (arith, clamped-eq-min b max_count))).1,
)
  where
    n : ℕ
    n = clamped b max_count

pub clear_refines : (b : Buffer) → IsValid b → (contents (clear b) ≡ List.[]) × IsValid (clear b)
unfolding clear window slice
clear_refines b v = (ground arith, ground arith)

slice_all : (xs : List ℕ) (k : ℕ) → k ≤ length xs → slice xs 0 k ++ slice xs k (length xs - k) ≡ xs
unfolding slice
slice_all xs k h =
    ground (arith, length-drop k xs, take_all (length xs - k) (drop k xs), take-append-drop k xs)

stored : Buffer → List ℕ → ℕ → Buffer
stored b bytes at = record b {
  virtual_size = b.virtual_size + length bytes;
  backing =
      if leb (at + length bytes) b.physical_size
      then blit b.backing at bytes
      else blit (blit b.backing at (slice bytes 0 (b.physical_size - at))) 0
          (slice bytes (b.physical_size - at) (length bytes - (b.physical_size - at)));
}

store_lem :
    (b : Buffer) (bytes : List ℕ) (at : ℕ)
    → IsValid b
    → length bytes + b.virtual_size ≤ b.physical_size
    → at ≡ (b.head + b.virtual_size) % b.physical_size
    → (store b bytes at ≡ some (stored b bytes at))
      × (contents (stored b bytes at) ≡ contents b ++ bytes)
      × IsValid (stored b bytes at)
unfolding store stored
store_lem b bytes at v h e = ground (
  arith,
  slice_all bytes (b.physical_size - at),
  length-slice bytes 0 (b.physical_size - at),
  length-slice bytes (b.physical_size - at) (length bytes - (b.physical_size - at)),
  mod_once (b.head + b.virtual_size) b.physical_size,
  length-blit b.backing at bytes,
  length-blit b.backing at (slice bytes 0 (b.physical_size - at)),
  length-blit (blit b.backing at (slice bytes 0 (b.physical_size - at))) 0
      (slice bytes (b.physical_size - at) (length bytes - (b.physical_size - at))),
  window-store_once b.backing b.physical_size b.head b.virtual_size at
      (b.virtual_size + length bytes) bytes,
  window-store_twice b.backing b.physical_size b.head b.virtual_size at
      (b.virtual_size + length bytes) (slice bytes 0 (b.physical_size - at))
      (slice bytes (b.physical_size - at) (length bytes - (b.physical_size - at))),
)

pub store_refines :
    (b : Buffer) (bytes : List ℕ) (at : ℕ)
    → IsValid b
    → length bytes + b.virtual_size ≤ b.physical_size
    → at ≡ (b.head + b.virtual_size) % b.physical_size
    → (b' : Buffer) × (store b bytes at ≡ some b')
      × (contents b' ≡ contents b ++ bytes)
      × IsValid b'
      × (b'.physical_size ≡ b.physical_size)
unfolding stored
store_refines b bytes at v h e = (
  stored b bytes at,
  (store_lem b bytes at v h e).0,
  (store_lem b bytes at v h e).1,
  (store_lem b bytes at v h e).2,
  refl,
)

-- A `write` that fits appends its bytes and keeps the array.
pub write_refines :
    (junk : ℕ → ℕ) (b : Buffer) (bytes : List ℕ)
    → IsValid b
    → length bytes + length (contents b) ≤ b.physical_size
    → (b' : Buffer) × (write junk b bytes ≡ some b')
      × (contents b' ≡ contents b ++ bytes)
      × IsValid b'
      × (b'.physical_size ≡ b.physical_size)
unfolding write
write_refines junk b bytes v h = (
  done.0,
  ground (
    arith,
    length-contents b v,
    mod_size-some (add_size b.head b.virtual_size) b.physical_size,
    done.1,
  ),
  done.2,
  done.3,
  done.4,
)
  where
    at : ℕ
    at = (b.head + b.virtual_size) % b.physical_size

    done :
        (b' : Buffer) × (store b bytes at ≡ some b')
        × (contents b' ≡ contents b ++ bytes)
        × IsValid b'
        × (b'.physical_size ≡ b.physical_size)
    done = store_refines b bytes at v (omega (arith, length-contents b v)) refl
