-- ===== src/Rng.antt =====
-- nanocockpit/lib/rng.c: random bits, taken from a word of entropy. The static variables are the
-- state; `mask` has ones at the low `n_bits` places, so that a conjunction with it is a remainder.
pub mod Draws
mod Tests
use aideck_gap8_examples.Base.{
  ℕ, zero, suc, ◌+◌, ◌-◌, ◌/◌, ◌%◌, ◌^◌, Bool, ◌!=◌, leb, if◌then◌else◌, Outcome, ok, exit,
}

pub record Rng : Type 0 where
  pub entropy : ℕ
  pub entropy_mask : ℕ

-- The assertion of rng.c, and a shift by the width of `int`, which is undefined
pub data Fault : Type 0 where
  insufficient_entropy shift_undefined : Fault

-- `rng_init`
unfoldable pub init : Rng
init = record { entropy = 0; entropy_mask = 0 }

-- `rng_push_entropy`
unfoldable pub push_entropy : ℕ → Rng → Rng
push_entropy new_entropy g = record { entropy = new_entropy; entropy_mask = 0xFFFFFFFF }

-- `rng_random_bits`
unfoldable pub random_bits : ℕ → Rng → Outcome Fault (ℕ × Rng)
random_bits n_bits g =
    let mask = 2 ^ n_bits - 1 in
    let output = g.entropy % 2 ^ n_bits in
    let valid = g.entropy_mask % 2 ^ n_bits in
    if leb 32 n_bits
    then exit shift_undefined
    else if valid != mask
    then exit insufficient_entropy
    else ok (
      output,
      record { entropy = g.entropy / 2 ^ n_bits; entropy_mask = g.entropy_mask / 2 ^ n_bits },
    )
