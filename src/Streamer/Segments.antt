-- ===== src/Streamer/Segments.antt =====
-- What one round of `streamer_send_task` sends.
use aideck_gap8_examples.Base.{
  bytes, ℕ, ◌+◌, ◌-◌, ◌%◌, ◌≤◌, ◌<◌, ◌≡◌, ◌≢◌, refl, ◌∙◌, min, List, [], ◌∷◌, set, take,
  take-of_length-le, length-take, length, length-set, ok, arith,
}
use aideck_gap8_examples.Spi
use aideck_gap8_examples.Spi.{mtu}
use aideck_gap8_examples.Spi.Bounds.{IsValid}
use aideck_gap8_examples.Cpx
use aideck_gap8_examples.Streamer.Packet.{
  buffer_begin, buffer_data, type_image, packet_size, packet_head_length, begin_head, le32,
  command_of,
}
use aideck_gap8_examples.Streamer.Send.{
  Sender, packet_init, first_packet, segment_length, send_packet,
}

-- A request as `streamer_init` allocates it, between two packets.
pub record IsReady (s : Sender) : Type 0 where
  pub payload_aligned : s.cpx_req.payload % 4 ≡ 0
  pub capacity : s.cpx_req.payload_capacity ≡ packet_size
  pub packet_length : length s.packet ≡ packet_size
  pub request : IsValid s.cpx_req.req

-- The request after the head and the tail were set.
abbrev pub with_parts : Cpx.SendReq → ℕ → ℕ → ℕ → Cpx.SendReq
with_parts r head tail_at tail = record r {
  req = record r.req {
    header_length = head + tail;
    payload_head = r.payload;
    head_length = head;
    payload_tail = tail_at;
    tail_length = tail;
  };
}

packet_init-ok :
    (s : Sender) (command head : ℕ)
    → IsReady s
    → packet_head_length command ≡ ok head
    → head ≤ packet_size
    → head % 4 ≡ 0
    → packet_init s command
      ≡ ok (record { packet = set s.packet 0 command; cpx_req = with_parts s.cpx_req head 0 0 })
unfolding packet_init Cpx.set_tail Cpx.set_head_length Spi.set_tail Spi.set_head
packet_init-ok s command head v e h w = ground (arith, e)

max_tail-ok :
    (r : Cpx.SendReq) (head : ℕ)
    → head ≤ packet_size
    → head % 4 ≡ 0
    → Cpx.max_tail_length (with_parts r head 0 0) ≡ mtu - head
unfolding Cpx.max_tail_length Spi.max_tail_length
max_tail-ok r head h w = ground arith

set_tail-ok :
    (r : Cpx.SendReq) (head at n : ℕ)
    → head % 4 ≡ 0
    → at % 4 ≡ 0
    → n % 4 ≡ 0
    → head + n ≤ mtu
    → Cpx.set_tail (with_parts r head 0 0) at n ≡ ok (with_parts r head at n)
unfolding Cpx.set_tail Spi.set_tail
set_tail-ok r head at n h a w f = ground arith

with_parts-IsReady :
    (s : Sender) (packet : List ℕ) (head at n : ℕ)
    → IsReady s
    → length packet ≡ packet_size
    → head % 4 ≡ 0
    → at % 4 ≡ 0
    → n % 4 ≡ 0
    → head + n ≤ mtu
    → IsReady (record { packet = packet; cpx_req = with_parts s.cpx_req head at n })
with_parts-IsReady s packet head at n v l h a w f = omega arith

-- A segment is not empty, is a whole number of words, fits the packet, and is either all that
-- remains, rounded up, or as much as fits.
pub segment_length_lem :
    (remaining room : ℕ)
    → 0 < remaining
    → 0 < room
    → room % 4 ≡ 0
    → (0 < segment_length remaining room)
      × (segment_length remaining room % 4 ≡ 0)
      × (segment_length remaining room ≤ room)
      × (segment_length remaining room < remaining + 4)
      × (remaining % 4 ≡ 0 → segment_length remaining room ≡ min remaining room)
unfolding segment_length
segment_length_lem remaining room h k w =
    (ground arith, ground arith, ground arith, ground arith, λ z. ground arith)

pub begin-known : packet_head_length buffer_begin ≡ ok 12
unfolding packet_head_length
begin-known = refl

pub data-known : packet_head_length buffer_data ≡ ok 4
unfolding packet_head_length
data-known = refl

pub length-begin_head : (type size sum : ℕ) → length (begin_head type size sum) ≡ packet_size
unfolding begin_head le32
length-begin_head type size sum = refl

head-begin_head :
    (type size sum : ℕ) → take 12 (begin_head type size sum) ≡ begin_head type size sum
head-begin_head type size sum =
    take-of_length-le 12 (begin_head type size sum) (omega (arith, length-begin_head type size sum))

data_command :
    (packet : List ℕ)
    → 0 < length packet
    → command_of (take 4 (set packet 0 buffer_data)) ≡ buffer_data
unfolding command_of
data_command [] h = absurd (omega arith)
data_command (x ∷ packet) h = refl

module _ (memory : ℕ → ℕ) (frame_size checksum : ℕ) where
  abbrev pub begin_length : ℕ
  begin_length = segment_length frame_size (mtu - 12)

  -- The first packet has the fields of BUFFER_BEGIN, and the first bytes of the frame.
  pub send_packet_first :
      (s : Sender) (at : ℕ)
      → IsReady s
      → at % 4 ≡ 0
      → 0 < frame_size
      → (s' : Sender) × (send_packet memory frame_size checksum s at frame_size
          ≡ ok (
            s',
            record {
              head = begin_head type_image frame_size checksum;
              tail = bytes memory at begin_length;
            },
            begin_length,
          ))
        × IsReady s'
  unfolding send_packet first_packet
  send_packet_first s at v a h = (
    record {
      packet = begin_head type_image frame_size checksum;
      cpx_req = with_parts s.cpx_req 12 at begin_length;
    },
    ground (
      arith,
      packet_init-ok s buffer_begin 12 v,
      begin-known,
      max_tail-ok s.cpx_req 12,
      set_tail-ok s.cpx_req 12 at begin_length,
      segment_length_lem frame_size (mtu - 12),
      head-begin_head type_image frame_size checksum,
    ),
    with_parts-IsReady s (begin_head type_image frame_size checksum) 12 at begin_length v
        (length-begin_head type_image frame_size checksum) refl a fits.1 (omega (arith, fits)),
  )
    where
      fits : (0 < begin_length) × (begin_length % 4 ≡ 0) × (begin_length ≤ mtu - 12)
      fits =
          let l = segment_length_lem frame_size (mtu - 12) h (omega arith) refl in (l.0, l.1, l.2)

  abbrev pub data_length : ℕ → ℕ
  data_length remaining = segment_length remaining (mtu - 4)

  -- Every later packet has the command BUFFER_DATA, and the bytes that follow.
  pub send_packet_later :
      (s : Sender) (at remaining : ℕ)
      → IsReady s
      → at % 4 ≡ 0
      → 0 < remaining
      → remaining ≢ frame_size
      → (s' : Sender) × (head : List ℕ) × (send_packet memory frame_size checksum s at remaining
          ≡ ok (
            s',
            record { head = head; tail = bytes memory at (data_length remaining) },
            data_length remaining,
          ))
        × IsReady s'
        × (length head ≡ 4)
        × (command_of head ≡ buffer_data)
  unfolding send_packet
  send_packet_later s at remaining v a h ne = (
    record {
      packet = set s.packet 0 buffer_data;
      cpx_req = with_parts s.cpx_req 4 at (data_length remaining);
    },
    take 4 (set s.packet 0 buffer_data),
    ground (
      arith,
      packet_init-ok s buffer_data 4 v,
      data-known,
      max_tail-ok s.cpx_req 4,
      set_tail-ok s.cpx_req 4 at (data_length remaining),
      segment_length_lem remaining (mtu - 4),
    ),
    with_parts-IsReady s (set s.packet 0 buffer_data) 4 at (data_length remaining) v
        (length-set s.packet 0 buffer_data ∙ v.packet_length) refl a fits.1 (omega (arith, fits)),
    length-take 4 (set s.packet 0 buffer_data)
        ∙ omega (arith, length-set s.packet 0 buffer_data, v.packet_length),
    data_command s.packet (omega arith),
  )
    where
      fits :
          (0 < data_length remaining)
          × (data_length remaining % 4 ≡ 0)
          × (data_length remaining ≤ mtu - 4)
      fits = let l = segment_length_lem remaining (mtu - 4) h (omega arith) refl in (l.0, l.1, l.2)
