-- ===== src/Crc/Errors.antt =====
-- Which changes of a message change its checksum.
use Prim.Native.Nat.{bit_xor}
use daylite.Prelude.{
  ℕ, zero, suc, ◌+◌, ◌*◌, ◌/◌, ◌%◌, ◌^◌, ◌≤◌, ◌<◌, ◌≡◌, ◌≢◌, refl, sym, ap, ◌∙◌, List, [], ◌∷◌,
  ◌++◌, length, arith, bit_xor_comm, bit_xor_right_comm, bit_xor_cancel, bit_xor-div, bit_xor-zero,
  zero-bit_xor, bit_xor-lt, bit_xor-split,
}
use daylite.Crc.{AreBytes, update_byte, crc_update, crc_init, crc_finalize}
use daylite.Crc.Bitwise.{
  shift_bit, shift_bits, shift_bits-high, bitwise_update, update_byte_lem, update_byte-lt,
  crc_update_lem, crc_update-append, crc_update-cons, crc_update-nil,
}

-- The polynomial's highest bit tells which numbers were odd.
odd-high : (z : ℕ) → z < 2 ^ 31 → 2 ^ 31 ≤ bit_xor z 0xedb8_8320
odd-high z h = omega (
  arith,
  bit_xor-div 31 z 0xedb8_8320,
  ap (λ t. bit_xor t (0xedb8_8320 / 2 ^ 31)) none_high,
  zero-bit_xor (0xedb8_8320 / 2 ^ 31),
)
  where
    none_high : z / 2 ^ 31 ≡ 0
    none_high = omega arith

shift_bit-lt : (x : ℕ) → x < 2 ^ 32 → shift_bit x < 2 ^ 32
unfolding shift_bit
shift_bit-lt x h = ground (arith, bit_xor-lt 32 (x / 2) 0xedb8_8320 (omega arith) (omega arith))

shift_bit-injective : (x y : ℕ) → x < 2 ^ 32 → y < 2 ^ 32 → shift_bit x ≡ shift_bit y → x ≡ y
unfolding shift_bit
shift_bit-injective x y p q e = ground (
  arith,
  odd-high (x / 2) (omega arith),
  odd-high (y / 2) (omega arith),
  λ (h : bit_xor (x / 2) 0xedb8_8320 ≡ bit_xor (y / 2) 0xedb8_8320). halves h,
)
  where
    halves : bit_xor (x / 2) 0xedb8_8320 ≡ bit_xor (y / 2) 0xedb8_8320 → x / 2 ≡ y / 2
    halves h =
        sym (bit_xor_cancel (x / 2) 0xedb8_8320)
        ∙ ap (λ t. bit_xor t 0xedb8_8320) h
        ∙ bit_xor_cancel (y / 2) 0xedb8_8320

shift_bits-injective :
    (k x y : ℕ) → x < 2 ^ 32 → y < 2 ^ 32 → shift_bits k x ≡ shift_bits k y → x ≡ y
unfolding shift_bits
shift_bits-injective zero x y p q e = e
shift_bits-injective (suc k) x y p q e =
    shift_bit-injective x y p q
      (shift_bits-injective k (shift_bit x) (shift_bit y) (shift_bit-lt x p) (shift_bit-lt y q) e)

xor-injective : (a b c : ℕ) → bit_xor a c ≡ bit_xor b c → a ≡ b
xor-injective a b c e = sym (bit_xor_cancel a c) ∙ ap (λ t. bit_xor t c) e ∙ bit_xor_cancel b c

-- Bytes read as one number, the first byte lowest.
abbrev pub little_endian : List ℕ → ℕ
little_endian [] = 0
little_endian (byte ∷ bytes) = byte + 2 ^ 8 * little_endian bytes

little_endian_xor : (byte n : ℕ) → byte < 2 ^ 8 → bit_xor byte (2 ^ 8 * n) ≡ byte + 2 ^ 8 * n
little_endian_xor byte n h =
    ap (λ t. bit_xor t (2 ^ 8 * n)) low
    ∙ ap (λ t. bit_xor ((byte + 2 ^ 8 * n) % 2 ^ 8) (2 ^ 8 * t)) high
    ∙ bit_xor-split 8 (byte + 2 ^ 8 * n)
  where
    low : byte ≡ (byte + 2 ^ 8 * n) % 2 ^ 8
    low = omega arith

    high : n ≡ (byte + 2 ^ 8 * n) / 2 ^ 8
    high = omega arith

little_endian-lt :
    (bytes : List ℕ) → AreBytes bytes → length bytes ≤ 4 → little_endian bytes < 2 ^ 32
little_endian-lt [] h n = omega arith
little_endian-lt (a ∷ []) h n = omega (arith, h)
little_endian-lt (a ∷ b ∷ []) h n = omega (arith, h.0, h.1)
little_endian-lt (a ∷ b ∷ c ∷ []) h n = omega (arith, h.0, h.1.0, h.1.1)
little_endian-lt (a ∷ b ∷ c ∷ d ∷ []) h n = omega (arith, h.0, h.1.0, h.1.1.0, h.1.1.1)
little_endian-lt (a ∷ b ∷ c ∷ d ∷ e ∷ bytes) h n = absurd (omega arith)

little_endian-injective :
    (xs ys : List ℕ)
    → length xs ≡ length ys
    → AreBytes xs
    → AreBytes ys
    → little_endian xs ≡ little_endian ys
    → xs ≡ ys
little_endian-injective [] [] n h k e = refl
little_endian-injective [] (y ∷ ys) n h k e = absurd (omega arith)
little_endian-injective (x ∷ xs) [] n h k e = absurd (omega arith)
little_endian-injective (x ∷ xs) (y ∷ ys) n h k e =
    rw (head, little_endian-injective xs ys (omega arith) h.1 k.1 tail)
  where
    head : x ≡ y
    head = omega (arith, h.0, k.0)

    tail : little_endian xs ≡ little_endian ys
    tail = omega (arith, h.0, k.0)

shift_bits-add : (m n k x : ℕ) → m + n ≡ k → shift_bits k x ≡ shift_bits n (shift_bits m x)
unfolding shift_bits
shift_bits-add zero n k x e = rw (count_eq) refl
  where
    count_eq : k ≡ n
    count_eq = omega arith
shift_bits-add (suc m) n zero x e = absurd (omega arith)
shift_bits-add (suc m) n (suc k) x e = shift_bits-add m n k (shift_bit x) (omega arith)

bit_xor_assoc : (a b c : ℕ) → bit_xor (bit_xor a b) c ≡ bit_xor a (bit_xor b c)
bit_xor_assoc a b c =
    ap (λ t. bit_xor t c) (bit_xor_comm a b)
    ∙ bit_xor_right_comm b a c
    ∙ bit_xor_comm (bit_xor b c) a

-- The message is one number to be divided.
bitwise_update-shift_bits :
    (bytes : List ℕ) (crc : ℕ)
    → AreBytes bytes
    → bitwise_update crc bytes ≡ shift_bits (8 * length bytes) (bit_xor crc (little_endian bytes))
unfolding bitwise_update
bitwise_update-shift_bits [] crc h = sym (bit_xor-zero crc)
bitwise_update-shift_bits (byte ∷ bytes) crc h =
    bitwise_update-shift_bits bytes (shift_bits 8 (bit_xor crc byte)) h.1
    ∙ ap (shift_bits (8 * length bytes))
        (sym (shift_bits-high 8 (bit_xor crc byte) (little_endian bytes)))
    ∙ sym (shift_bits-add 8 (8 * length bytes) (8 * suc (length bytes)) _ (omega arith))
    ∙ ap (shift_bits (8 * suc (length bytes))) (
        bit_xor_assoc crc byte (2 ^ 8 * little_endian bytes)
        ∙ ap (bit_xor crc) (little_endian_xor byte _ h.0))

update_byte-injective :
    (crc other byte : ℕ)
    → crc < 2 ^ 32
    → other < 2 ^ 32
    → byte < 2 ^ 8
    → update_byte crc byte ≡ update_byte other byte
    → crc ≡ other
update_byte-injective crc other byte p q h e = xor-injective crc other byte (
    shift_bits-injective 8 _ _ (bit_xor-lt 32 crc byte p (omega arith))
      (bit_xor-lt 32 other byte q (omega arith))
      (sym (update_byte_lem crc byte p h) ∙ e ∙ update_byte_lem other byte q h))

-- The same rest of a message keeps two different checksums different.
crc_update-injective :
    (bytes : List ℕ) (crc other : ℕ)
    → crc < 2 ^ 32
    → other < 2 ^ 32
    → AreBytes bytes
    → crc_update crc bytes ≡ crc_update other bytes
    → crc ≡ other
crc_update-injective [] crc other p q h e = sym (crc_update-nil crc p) ∙ e ∙ crc_update-nil other q
crc_update-injective (byte ∷ bytes) crc other p q h e =
    update_byte-injective crc other byte p q h.0 (
      crc_update-injective bytes (update_byte crc byte) (update_byte other byte)
        (update_byte-lt crc byte p h.0) (update_byte-lt other byte q h.0) h.1
        (sym (crc_update-cons crc byte bytes) ∙ e ∙ crc_update-cons other byte bytes))

-- Up to four bytes in a row tell.
crc_update-burst :
    (xs ys : List ℕ) (crc : ℕ)
    → crc < 2 ^ 32
    → AreBytes xs
    → AreBytes ys
    → length xs ≡ length ys
    → length xs ≤ 4
    → crc_update crc xs ≡ crc_update crc ys
    → xs ≡ ys
crc_update-burst xs ys crc p h k n le e = little_endian-injective xs ys n h k (
    xor-injective _ _ crc (
      bit_xor_comm _ crc
      ∙ shift_bits-injective (8 * length xs) _ _ (bit_xor-lt 32 crc _ p (little_endian-lt xs h le))
          (bit_xor-lt 32 crc _ p (little_endian-lt ys k (omega arith))) same
      ∙ bit_xor_comm crc _))
  where
    same :
        shift_bits (8 * length xs) (bit_xor crc (little_endian xs))
        ≡ shift_bits (8 * length xs) (bit_xor crc (little_endian ys))
    same =
        sym (bitwise_update-shift_bits xs crc h)
        ∙ sym (crc_update_lem xs crc p h).0
        ∙ e
        ∙ (crc_update_lem ys crc p k).0
        ∙ bitwise_update-shift_bits ys crc k
        ∙ ap (λ t. shift_bits (8 * t) (bit_xor crc (little_endian ys))) (sym n)

-- Two messages of bytes that differ in a stretch of at most four bytes, and are equal before and after
-- it, have different checksums.
pub checksum-burst :
    (before xs ys after : List ℕ)
    → AreBytes before
    → AreBytes xs
    → AreBytes ys
    → AreBytes after
    → length xs ≡ length ys
    → length xs ≤ 4
    → xs ≢ ys
    → crc_finalize (crc_update crc_init (before ++ (xs ++ after)))
      ≢ crc_finalize (crc_update crc_init (before ++ (ys ++ after)))
unfolding crc_finalize
checksum-burst before xs ys after hb hx hy ha n le ne e = ne (
    crc_update-burst xs ys start start_fits hx hy n le (
      crc_update-injective after _ _ (crc_update_lem xs start start_fits hx).1
        (crc_update_lem ys start start_fits hy).1 ha
        (sym (pieces xs hx) ∙ xor-injective _ _ 0xffff_ffff e ∙ pieces ys hy)))
  where
    start : ℕ
    start = crc_update crc_init before

    start_fits : start < 2 ^ 32
    start_fits = (crc_update_lem before crc_init (omega arith) hb).1

    pieces :
        (zs : List ℕ)
        → AreBytes zs
        → crc_update crc_init (before ++ (zs ++ after)) ≡ crc_update (crc_update start zs) after
    pieces zs hz =
        crc_update-append before (zs ++ after) crc_init (omega arith) hb
        ∙ crc_update-append zs after start start_fits hz
