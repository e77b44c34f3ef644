-- ===== src/Cpx/Header.antt =====
-- The two bytes of a packed `cpx_header_t` of nanocockpit/lib/cpx/cpx_types.h, its bit fields from
-- the lowest bit up, which is the compiler's layout, and the same in lib/cpx/src/cpx.c, where
-- `pack` stands for the assignments to the fields of `txpPacked.route` and `unpack` for the reads of
-- those of `rxpPacked.route`.
use aideck_gap8_examples.Base.{
  ℕ, ◌+◌, ◌*◌, ◌/◌, ◌%◌, Bool, true, false, ◌==◌, List, [], ◌∷◌, get_or,
}
use aideck_gap8_examples.Cpx.Target

-- `cpx_header_t`; targets and functions are their numbers.
pub record Header : Type 0 where
  pub destination : ℕ
  pub source : ℕ
  pub last_packet : Bool
  pub reserved : Bool
  pub function : ℕ
  pub version : ℕ

abbrev pub cpx_version : ℕ
cpx_version = 0

-- `CPX_HEADER_INIT`
unfoldable pub header_init : ℕ → ℕ → Header
header_init dest func = record {
  destination = dest;
  source = Target.gap;
  last_packet = true;
  reserved = false;
  function = func;
  version = cpx_version;
}

abbrev pub bit : Bool → ℕ
bit true = 1
bit false = 0

-- Assigning to a bit field keeps the low bits.
unfoldable pub pack : Header → List ℕ
pack h =
    (h.destination % 8 + h.source % 8 * 8 + bit h.last_packet * 64 + bit h.reserved * 128)
    ∷ (h.function % 64 + h.version % 4 * 64)
    ∷ []

unfoldable pub unpack : List ℕ → Header
unpack bytes =
    let low = get_or bytes 0 0 in
    let high = get_or bytes 1 0 in
    record {
      destination = low % 8;
      source = low / 8 % 8;
      last_packet = (low / 64 % 2) == 1;
      reserved = (low / 128 % 2) == 1;
      function = high % 64;
      version = high / 64 % 4;
    }
