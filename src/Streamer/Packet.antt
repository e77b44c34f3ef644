-- ===== src/Streamer/Packet.antt =====
-- The packets of nanocockpit/lib/streamer.c as bytes: a command, then the fields of
-- `streamer_begin_t` or the padding of `streamer_data_t`.
use aideck_gap8_examples.Base.{
  bytes, ℕ, ◌+◌, ◌*◌, ◌/◌, ◌%◌, ◌^◌, ◌<◌, ◌≡◌, List, [], ◌∷◌, ◌++◌, get_or, ◌==◌, if◌then◌else◌,
  Outcome, ok, exit, arith,
}
use aideck_gap8_examples.Cpx

-- The assertions on the way of a frame or a buffer.
pub data Fault : Type 0 where
  unknown_command : Fault
  cpx : Cpx.Fault → Fault
  no_callback_task buffer_in_use already_waiting not_waiting_for_it : Fault
  -- the model's own: the loop was given too few rounds
  out_of_fuel : Fault

abbrev pub from_cpx {ℓ} : {A : Type ℓ} → Outcome Cpx.Fault A → Outcome Fault A
from_cpx (ok a) = ok a
from_cpx (exit f) = exit (cpx f)

-- `streamer_cmd_e`
abbrev pub buffer_begin : ℕ
buffer_begin = 0x10

abbrev pub buffer_data : ℕ
buffer_data = 0x11

-- `STREAMER_TYPE_IMAGE`
abbrev pub type_image : ℕ
type_image = 1

-- `sizeof(streamer_packet_t)`: the command and the longer of the two structs
abbrev pub packet_size : ℕ
packet_size = 12

-- `streamer_packet_head_length`: `sizeof(streamer_begin_t)` is 11, `sizeof(streamer_data_t)` 3.
unfoldable pub packet_head_length : ℕ → Outcome Fault ℕ
packet_head_length command =
    if command == buffer_begin
    then ok (1 + 11)
    else if command == buffer_data
    then ok (1 + 3)
    else exit unknown_command

-- A `uint32_t` in memory, lowest byte first.
unfoldable pub le32 : ℕ → List ℕ
le32 n = (n % 256) ∷ (n / 256 % 256) ∷ (n / 65536 % 256) ∷ (n / 16777216 % 256) ∷ []

unfoldable pub read32 : List ℕ → ℕ → ℕ
read32 bytes at =
    get_or bytes at 0
    + get_or bytes (at + 1) 0 * 256
    + get_or bytes (at + 2) 0 * 65536
    + get_or bytes (at + 3) 0 * 16777216

-- The twelve bytes of a BUFFER_BEGIN packet; `_padding` is zero-initialised.
unfoldable pub begin_head : ℕ → ℕ → ℕ → List ℕ
begin_head type size checksum = buffer_begin ∷ type ∷ (le32 size ++ (le32 checksum ++ 0 ∷ 0 ∷ []))

-- The fields of a packet that came in.
unfoldable pub command_of : List ℕ → ℕ
command_of packet = get_or packet 0 0

unfoldable pub begin_type : List ℕ → ℕ
begin_type packet = get_or packet 1 0

unfoldable pub begin_size : List ℕ → ℕ
unfolding read32
begin_size packet = read32 packet 2

unfoldable pub begin_checksum : List ℕ → ℕ
unfolding read32
begin_checksum packet = read32 packet 6

pub begin_head_fields :
    (type size checksum : ℕ) (rest : List ℕ)
    → size < 2 ^ 32
    → checksum < 2 ^ 32
    → (command_of (begin_head type size checksum ++ rest) ≡ buffer_begin)
      × (begin_type (begin_head type size checksum ++ rest) ≡ type)
      × (begin_size (begin_head type size checksum ++ rest) ≡ size)
      × (begin_checksum (begin_head type size checksum ++ rest) ≡ checksum)
unfolding command_of begin_type begin_size begin_checksum begin_head le32
begin_head_fields type size checksum rest hs hc = omega arith
