-- ===== src/Crc/Tests.antt =====
-- Runs of crc.cpp, the check value of CRC-32 among them.
use daylite.Prelude.{◌≡◌, ◌≢◌, refl, ℕ, ◌<◌, ◌^◌, List, [], ◌∷◌, ◌++◌, arith}
use daylite.Crc.{
  AreBytes, crc_update, update_byte, crc_init, crc_finalize, crc_reflect, reflect_rounds,
}
use daylite.Crc.Bitwise.{bitwise_update, crc_update_lem}
use daylite.Crc.Errors.{checksum-burst}

-- "123456789"
abbrev digits : List ℕ
digits = 0x31 ∷ 0x32 ∷ 0x33 ∷ 0x34 ∷ 0x35 ∷ 0x36 ∷ 0x37 ∷ 0x38 ∷ 0x39 ∷ []

digits-AreBytes : AreBytes digits
digits-AreBytes = omega arith

check_value : crc_finalize (crc_update crc_init digits) ≡ 0xcbf4_3926
unfolding crc_finalize crc_update update_byte
check_value = refl

reflects : crc_reflect 0b0001_0110 8 ≡ 0b0110_1000
unfolding crc_reflect reflect_rounds
reflects = refl

crc_update_lem_example :
    (crc_update crc_init digits ≡ bitwise_update crc_init digits)
    × (crc_update crc_init digits < 2 ^ 32)
crc_update_lem_example = crc_update_lem digits crc_init (omega arith) digits-AreBytes

checksum-burst_example :
    crc_finalize (crc_update crc_init (digits ++ ((1 ∷ 2 ∷ []) ++ digits)))
    ≢ crc_finalize (crc_update crc_init (digits ++ ((1 ∷ 3 ∷ []) ++ digits)))
checksum-burst_example =
    checksum-burst digits (1 ∷ 2 ∷ []) (1 ∷ 3 ∷ []) digits digits-AreBytes (omega arith)
      (omega arith) digits-AreBytes (omega arith) (omega arith) λ e. absurd (differ e)
  where
    differ : ◌≡◌ {A = List ℕ} (1 ∷ 2 ∷ []) (1 ∷ 3 ∷ []) → ⊥
    differ e = cc
