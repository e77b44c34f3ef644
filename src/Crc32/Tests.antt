-- ===== src/Crc32/Tests.antt =====
-- The check value of nanocockpit/lib/crc32.c: the CRC-32 of the text 123456789.
use Prim.Native.Nat.{bit_xor}
use aideck_gap8_examples.Base.{ℕ, ◌≡◌, refl, inr, List, [], ◌∷◌, arith}
use aideck_gap8_examples.Crc32.{
  statics, calculate_buffer, crc_by_bit, crc_by_byte, shift_bits, shift_bit, fill_table,
  initial_remainder, final_xor_value,
}
use aideck_gap8_examples.Crc32.Laws.{IsReady, calculate_buffer_lem}

abbrev digits : List ℕ
digits = b'1' ∷ b'2' ∷ b'3' ∷ b'4' ∷ b'5' ∷ b'6' ∷ b'7' ∷ b'8' ∷ b'9' ∷ []

check_value : (calculate_buffer statics digits).1 ≡ 0xCBF43926
unfolding calculate_buffer crc_by_byte fill_table crc_by_bit shift_bits shift_bit
check_value = refl

calculate_buffer_lem_example :
    ((calculate_buffer statics digits).1
      ≡ bit_xor (crc_by_bit digits initial_remainder) final_xor_value)
    × IsReady (calculate_buffer statics digits).0
calculate_buffer_lem_example = calculate_buffer_lem statics digits (inr (refl, refl)) (omega arith)
