-- ===== src/Crc32.antt =====
-- The CRC-32 of nanocockpit/lib/crc32.c, computed a byte at a time from a table.
-- A `uint32_t` is a number below 2 ^ 32, a byte one below 256.
pub mod Laws
mod Tests
use Prim.Native.Nat.{bit_xor}
use aideck_gap8_examples.Base.{
  ℕ, zero, suc, ◌+◌, ◌-◌, ◌*◌, ◌/◌, ◌%◌, Bool, true, false, List, [], ◌∷◌, get_or, set, replicate,
  ◌==◌, if◌then◌else◌,
}

abbrev pub polynomial : ℕ
polynomial = 0xEDB88320

abbrev pub initial_remainder : ℕ
initial_remainder = 0xFFFFFFFF

abbrev pub final_xor_value : ℕ
final_xor_value = 0xFFFFFFFF

-- One round of the inner loop of `crcByBit`.
unfoldable pub shift_bit : ℕ → ℕ
shift_bit remainder =
    if (remainder % 2) == 1 then bit_xor (remainder / 2) polynomial else remainder / 2

-- `for (bit = 8; bit > 0; --bit)`
unfoldable pub shift_bits : ℕ → ℕ → ℕ
shift_bits zero remainder = remainder
shift_bits (suc bit) remainder = shift_bits bit (shift_bit remainder)

unfoldable pub crc_by_bit : List ℕ → ℕ → ℕ
crc_by_bit [] remainder = remainder
crc_by_bit (byte ∷ rest) remainder = crc_by_bit rest (shift_bits 8 (bit_xor remainder byte))

unfoldable pub crc_by_byte : List ℕ → ℕ → List ℕ → ℕ
crc_by_byte [] remainder table = remainder
crc_by_byte (byte ∷ rest) remainder table =
    crc_by_byte rest (bit_xor (get_or table (bit_xor byte remainder % 256) 0) (remainder / 256))
      table

-- `crcTableInit`: `dividend` goes down from 255 to 0, and the body runs for 0 too.
unfoldable pub fill_table : ℕ → List ℕ → List ℕ
fill_table zero table = set table zero (crc_by_bit (zero ∷ []) 0)
fill_table (suc dividend) table =
    fill_table dividend (set table (suc dividend) (crc_by_bit (suc dividend ∷ []) 0))

abbrev pub table_init : List ℕ → List ℕ
table_init = fill_table 255

-- The static variables of crc32.c.
pub record Statics : Type 0 where
  pub table : List ℕ
  pub initialized : Bool

-- At program start.
abbrev pub statics : Statics
statics = record { table = replicate 256 0; initialized = false }

-- `crc32ContextInit`: the table is made on the first call.
unfoldable pub context_init : Statics → Statics × ℕ
context_init s = (
  if s.initialized then s else record { table = table_init s.table; initialized = true },
  initial_remainder,
)

unfoldable pub update : Statics → ℕ → List ℕ → ℕ
update s remainder message = crc_by_byte message remainder s.table

unfoldable pub out : ℕ → ℕ
out remainder = bit_xor remainder final_xor_value

unfoldable pub calculate_buffer : Statics → List ℕ → Statics × ℕ
unfolding context_init update out
calculate_buffer s buffer =
    let (s', context) = context_init s in (s', out (update s' context buffer))
