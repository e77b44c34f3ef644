-- ===== src/Streamer/Steps.antt =====
-- What a packet that was sent does to a waiting buffer.
use Prim.Native.Nat.{bit_xor}
use aideck_gap8_examples.Base.{
  write, ℕ, ◌+◌, ◌-◌, ◌^◌, ◌≤◌, ◌<◌, ◌≡◌, ◌≢◌, ◌⊎◌, refl, sym, subst, ap, ◌∙◌, Bool, true, false,
  List, [], ◌∷◌, ◌++◌, length, take, drop, take-of_length-le, drop-append_left, ◌==◌, if◌then◌else◌,
  ok, arith,
}
use aideck_gap8_examples.Crc32.{Statics, crc_by_bit, initial_remainder, final_xor_value}
use aideck_gap8_examples.Crc32.Laws.{IsReady, AreBytes, calculate_buffer_lem}
use aideck_gap8_examples.Streamer.Packet.{
  packet_head_length, command_of, buffer_data, begin_head, begin_head_fields,
}
use aideck_gap8_examples.Streamer.Segments.{begin-known, data-known, length-begin_head}
use aideck_gap8_examples.Streamer.Receive.{
  Buffer, sub_size, complete, compute_checksum, data_received, begin_received, packet_received,
}

-- The checksum that a sender puts into BUFFER_BEGIN if it computes one.
abbrev pub checksum_of : List ℕ → ℕ
checksum_of frame =
    let crc = bit_xor (crc_by_bit frame initial_remainder) final_xor_value in
    if crc == 0 then 2 ^ 32 - 1 else crc

pub compute_checksum_lem :
    (s : Statics) (frame : List ℕ)
    → IsReady s
    → AreBytes frame
    → ((compute_checksum s frame).1 ≡ checksum_of frame) × IsReady (compute_checksum s frame).0
unfolding compute_checksum
compute_checksum_lem s frame r b =
    let (e, k) = calculate_buffer_lem s frame r b in
    (ap (λ crc. if crc == 0 then 2 ^ 32 - 1 else crc) e, k)

-- A full buffer whose checksum is absent or right is handed over.
pub complete_lem :
    (check : Bool) (crc : Statics) (b : Buffer) (frame : List ℕ)
    → take b.size b.storage ≡ frame
    → IsReady crc
    → AreBytes frame
    → (b.checksum ≡ 0) ⊎ (b.checksum ≡ checksum_of frame)
    → let r = complete check crc b in
      (r.done ≡ true) × (r.buffer ≡ record b { done_task = 0 }) × IsReady r.crc
unfolding complete
complete_lem false crc b frame e k a c = (refl, refl, k)
complete_lem true crc b frame e k a c =
    let l = compute_checksum_lem crc (take b.size b.storage) k (subst AreBytes (sym e) a) in
    ground (arith, l, ap checksum_of e)

-- The buffer with one more segment.
abbrev pub filled : Buffer → List ℕ → Buffer
filled b segment = record b {
  storage = write b.storage b.received_size segment;
  received_size = b.received_size + length segment;
}

sub_size-add : (m n : ℕ) → m + n < 2 ^ 32 → sub_size (m + n) m ≡ n
sub_size-add m n h = omega arith

sub_size-le : (a b : ℕ) → b ≤ a → a < 2 ^ 32 → sub_size a b ≡ a - b
sub_size-le a b h k = omega arith

segment-of :
    (head segment : List ℕ) → take (length segment) (drop (length head) (head ++ segment)) ≡ segment
segment-of head segment =
    ap (take (length segment)) (drop-append_left head segment)
    ∙ take-of_length-le (length segment) segment (omega arith)

-- A packet whose segment fits what is missing is copied behind what is there.
pub data_received_lem :
    (check : Bool) (crc : Statics) (b : Buffer) (head segment : List ℕ)
    → packet_head_length (command_of (head ++ segment)) ≡ ok (length head)
    → b.size ≢ 0
    → b.size < 2 ^ 32
    → b.received_size + length segment ≤ b.size
    → length head + length segment < 2 ^ 32
    → data_received check crc b (head ++ segment) (length head + length segment)
      ≡ ok (
          if (b.received_size + length segment) == b.size
          then complete check crc (filled b segment)
          else record { crc = crc; buffer = filled b segment; done = false })
unfolding data_received
data_received_lem check crc b head segment e ne small fits short = ground (
  arith,
  e,
  sub_size-add (length head) (length segment) short,
  segment-of head segment,
  sub_size-le b.size b.received_size,
)

command_of-append :
    (head segment : List ℕ) → 0 < length head → command_of (head ++ segment) ≡ command_of head
unfolding command_of
command_of-append [] segment h = absurd (omega arith)
command_of-append (x ∷ head) segment h = refl

-- A BUFFER_DATA packet whose segment fits.
pub data_packet_lem :
    (check : Bool) (crc : Statics) (b : Buffer) (head segment : List ℕ)
    → length head ≡ 4
    → command_of head ≡ buffer_data
    → b.size ≢ 0
    → b.size < 2 ^ 32
    → b.received_size + length segment ≤ b.size
    → length segment < 2 ^ 16
    → packet_received check crc b (head ++ segment) (length head + length segment)
      ≡ ok (
          if (b.received_size + length segment) == b.size
          then complete check crc (filled b segment)
          else record { crc = crc; buffer = filled b segment; done = false })
unfolding packet_received
data_packet_lem check crc b head segment l c ne small fits short =
    ground (arith, command_of-append head segment, data_received_lem check crc b head segment known)
  where
    known : packet_head_length (command_of (head ++ segment)) ≡ ok (length head)
    known =
        ap packet_head_length (command_of-append head segment (omega arith) ∙ c)
        ∙ data-known
        ∙ ap ok (sym l)

-- The buffer when BUFFER_BEGIN has announced it.
abbrev pub announced : Buffer → ℕ → ℕ → ℕ → Buffer
announced b type size checksum = record b {
  type = type;
  size = size;
  received_size = 0;
  checksum = checksum;
}

-- A BUFFER_BEGIN packet for a buffer with room for the frame.
pub begin_packet_lem :
    (check : Bool) (crc : Statics) (b : Buffer) (type size checksum : ℕ) (segment : List ℕ)
    → 0 < size
    → size < 2 ^ 32
    → checksum < 2 ^ 32
    → size ≤ b.storage_capacity
    → length segment ≤ size
    → length segment < 2 ^ 16
    → packet_received check crc b
        (begin_head type size checksum ++ segment)
        (length (begin_head type size checksum) + length segment)
      ≡ ok (
          if (0 + length segment) == size
          then complete check crc (filled (announced b type size checksum) segment)
          else record {
            crc = crc;
            buffer = filled (announced b type size checksum) segment;
            done = false;
          })
unfolding packet_received begin_received
begin_packet_lem check crc b type size checksum segment pos small sum room fits short = ground (
  arith,
  begin_head_fields type size checksum segment,
  length-begin_head type size checksum,
  data_received_lem check crc (announced b type size checksum) (begin_head type size checksum)
      segment known,
)
  where
    known :
        packet_head_length (command_of (begin_head type size checksum ++ segment))
        ≡ ok (length (begin_head type size checksum))
    known =
        ap packet_head_length (begin_head_fields type size checksum segment small sum).0
        ∙ begin-known
        ∙ ap ok (sym (length-begin_head type size checksum))
