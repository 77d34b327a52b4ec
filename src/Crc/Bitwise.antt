-- ===== src/Crc/Bitwise.antt =====
-- The table against the polynomial 0x04c11db7, whose bits are reflected: 0xedb88320.
use Prim.Native.Nat.{bit_xor}
use native.Mathlib.Nat.{mod-eq_of_lt, pow-succ'}
use daylite.Prelude.{
  ℕ, zero, suc, ◌*◌, ◌/◌, ◌%◌, ◌^◌, ◌<◌, ◌==◌, ==_iff, ltb, ◌≡◌, refl, sym, ap, ◌∙◌, true, List, [],
  ◌∷◌, ◌++◌, get_or, if◌then◌else◌, arith, all_below, all_below-holds, bit_xor_low, bit_xor_half,
  bit_xor_right_comm, bit_xor-div, bit_xor-zero, bit_xor-lt, bit_xor-split, bit_and_mask,
}
use daylite.Crc.{AreBytes, crc_table, update_byte, crc_update}

-- Division by the polynomial, one bit at a time, lowest bit first.
unfoldable pub shift_bit : ℕ → ℕ
shift_bit crc = if crc % 2 == 1 then bit_xor (crc / 2) 0xedb8_8320 else crc / 2

unfoldable pub shift_bits : ℕ → ℕ → ℕ
unfolding shift_bit
shift_bits zero crc = crc
shift_bits (suc n) crc = shift_bits n (shift_bit crc)

unfoldable pub bitwise_update : ℕ → List ℕ → ℕ
unfolding shift_bits
bitwise_update crc [] = crc
bitwise_update crc (byte ∷ bytes) = bitwise_update (shift_bits 8 (bit_xor crc byte)) bytes

-- Each entry of the table is its index, divided.
crc_table_holds : all_below 256 (λ i. get_or crc_table i 0 == shift_bits 8 i) ≡ true
unfolding shift_bits shift_bit
crc_table_holds = refl

crc_table_fits : all_below 256 (λ i. ltb (get_or crc_table i 0) (2 ^ 32)) ≡ true
crc_table_fits = refl

table_shifts : (i : ℕ) → i < 256 → get_or crc_table i 0 ≡ shift_bits 8 i
table_shifts i h =
    (==_iff _ _).0
      (all_below-holds 256 (λ i. get_or crc_table i 0 == shift_bits 8 i) i crc_table_holds h)

table-lt : (i : ℕ) → i < 256 → get_or crc_table i 0 < 2 ^ 32
table-lt i h =
    below (all_below-holds 256 (λ i. ltb (get_or crc_table i 0) (2 ^ 32)) i crc_table_fits h)
  where
    below : ltb (get_or crc_table i 0) (2 ^ 32) ≡ true → get_or crc_table i 0 < 2 ^ 32
    below e = ground arith

-- Division of the low bits leaves the high bits to be added at the end.
shift_bit-high : (a b : ℕ) → shift_bit (bit_xor a (2 * b)) ≡ bit_xor (shift_bit a) b
unfolding shift_bit
shift_bit-high a b = rw (parity, half) (ground (arith, bit_xor_right_comm (a / 2) b 0xedb8_8320))
  where
    parity : bit_xor a (2 * b) % 2 ≡ a % 2
    parity = omega (arith, bit_xor_low a (2 * b))

    b_half : 2 * b / 2 ≡ b
    b_half = omega arith

    half : bit_xor a (2 * b) / 2 ≡ bit_xor (a / 2) b
    half = bit_xor_half a (2 * b) ∙ ap (bit_xor (a / 2)) b_half

pub shift_bits-high :
    (k a b : ℕ) → shift_bits k (bit_xor a (2 ^ k * b)) ≡ bit_xor (shift_bits k a) b
unfolding shift_bits
shift_bits-high zero a b = ap (bit_xor a) one_times
  where
    one_times : 1 * b ≡ b
    one_times = omega arith
shift_bits-high (suc k) a b =
    ap (λ t. shift_bits k (shift_bit (bit_xor a t))) double
    ∙ ap (shift_bits k) (shift_bit-high a (2 ^ k * b))
    ∙ shift_bits-high k (shift_bit a) b
  where
    double : 2 ^ suc k * b ≡ 2 * (2 ^ k * b)
    double = omega (arith, ap (λ t. t * b) (pow-succ' 2 k))

-- One byte of the message, by the table and bit by bit.
module _ (crc byte : ℕ) (p : crc < 2 ^ 32) (q : byte < 2 ^ 8) where
  abbrev mixed : ℕ
  mixed = bit_xor crc byte

  high-mixed : mixed / 2 ^ 8 ≡ crc / 2 ^ 8
  high-mixed =
      bit_xor-div 8 crc byte ∙ ap (bit_xor (crc / 2 ^ 8)) byte_high ∙ bit_xor-zero (crc / 2 ^ 8)
    where
      byte_high : byte / 2 ^ 8 ≡ 0
      byte_high = omega arith

  shift_bits-mixed : shift_bits 8 mixed ≡ bit_xor (get_or crc_table (mixed % 2 ^ 8) 0) (crc / 2 ^ 8)
  shift_bits-mixed =
      ap (shift_bits 8) (sym (bit_xor-split 8 mixed))
      ∙ shift_bits-high 8 (mixed % 2 ^ 8) (mixed / 2 ^ 8)
      ∙ ap (λ t. bit_xor t (mixed / 2 ^ 8)) (sym (table_shifts (mixed % 2 ^ 8) (omega arith)))
      ∙ ap (bit_xor (get_or crc_table (mixed % 2 ^ 8) 0)) high-mixed

  shift_bits-fits : shift_bits 8 mixed < 2 ^ 32
  shift_bits-fits =
      rw shift_bits-mixed (bit_xor-lt 32 _ _ (table-lt (mixed % 2 ^ 8) (omega arith)) (omega arith))

  pub update_byte_lem : update_byte crc byte ≡ shift_bits 8 mixed
  unfolding update_byte
  update_byte_lem =
      bit_and_mask 32 _ 0xffff_ffff refl
      ∙ ap (λ t. bit_xor (get_or crc_table t 0) (crc / 2 ^ 8) % 2 ^ 32)
          (bit_and_mask 8 mixed 0xff refl)
      ∙ ap (λ t. t % 2 ^ 32) (sym shift_bits-mixed)
      ∙ mod-eq_of_lt shift_bits-fits

  pub update_byte-lt : update_byte crc byte < 2 ^ 32
  update_byte-lt = rw update_byte_lem shift_bits-fits

-- One round of the loop, and its end.
pub crc_update-cons :
    (crc byte : ℕ) (bytes : List ℕ)
    → crc_update crc (byte ∷ bytes) ≡ crc_update (update_byte crc byte) bytes
unfolding crc_update
crc_update-cons crc byte bytes = refl

pub crc_update-nil : (crc : ℕ) → crc < 2 ^ 32 → crc_update crc [] ≡ crc
unfolding crc_update
crc_update-nil crc p = bit_and_mask 32 crc 0xffff_ffff refl ∙ mod-eq_of_lt p

-- What the table-driven loop gives is what dividing the message bit by bit gives, for every message
-- of bytes and every start that fits a `crc_t`, and the result fits one.
pub crc_update_lem :
    (bytes : List ℕ) (crc : ℕ)
    → crc < 2 ^ 32
    → AreBytes bytes
    → (crc_update crc bytes ≡ bitwise_update crc bytes) × (crc_update crc bytes < 2 ^ 32)
unfolding bitwise_update
crc_update_lem [] crc p h = (crc_update-nil crc p, rw (crc_update-nil crc p) p)
crc_update_lem (byte ∷ bytes) crc p h =
    rw (crc_update-cons crc byte bytes, ← update_byte_lem crc byte p h.0)
      (crc_update_lem bytes (update_byte crc byte) (update_byte-lt crc byte p h.0) h.1)

-- A message may be fed in pieces.
pub crc_update-append :
    (bytes more : List ℕ) (crc : ℕ)
    → crc < 2 ^ 32
    → AreBytes bytes
    → crc_update crc (bytes ++ more) ≡ crc_update (crc_update crc bytes) more
crc_update-append [] more crc p h = ap (λ t. crc_update t more) (sym (crc_update-nil crc p))
crc_update-append (byte ∷ bytes) more crc p h =
    crc_update-cons crc byte (bytes ++ more)
    ∙ crc_update-append bytes more (update_byte crc byte) (update_byte-lt crc byte p h.0) h.1
    ∙ ap (λ t. crc_update t more) (sym (crc_update-cons crc byte bytes))
