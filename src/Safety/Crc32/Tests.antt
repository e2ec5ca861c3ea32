-- ===== src/Safety/Crc32/Tests.antt =====
-- Examples for the checksum.
use safeedge.Common.{◌≢◌, ◌++◌, arith}
use safeedge.Safety.Crc32.Reference.{serial_compute, compute-serial_compute}
use safeedge.Safety.Crc32.Detection.{compute_change}
use safeedge.Common.{◌≡◌, refl, [], ◌∷◌}
use safeedge.Safety.Crc32.{
  shift_bit, shift_bits, table_from, build_table, value, check_value, update_byte, update, compute,
}

-- The check value of the parameter set: the CRC of the text "123456789".
compute_check : compute (49 ∷ 50 ∷ 51 ∷ 52 ∷ 53 ∷ 54 ∷ 55 ∷ 56 ∷ 57 ∷ []) ≡ check_value
unfolding compute update value update_byte build_table table_from shift_bits shift_bit
compute_check = refl

compute-serial_compute_example : compute (49 ∷ 50 ∷ []) ≡ serial_compute (49 ∷ 50 ∷ [])
compute-serial_compute_example =
    compute-serial_compute (49 ∷ 50 ∷ []) (omega arith, (omega arith, tt))

-- The last bit of the second byte flips.
compute_change_example : compute ((49 ∷ []) ++ 50 ∷ 51 ∷ []) ≢ compute ((49 ∷ []) ++ 48 ∷ 51 ∷ [])
compute_change_example =
    compute_change (49 ∷ []) 50 48 (51 ∷ []) (omega arith, tt) (omega arith) (omega arith)
      (omega arith, tt) (omega arith)
