-- ===== src/Streamer/Send.antt =====
-- `streamer_send_task` of nanocockpit/lib/streamer.c: a frame in memory becomes a list of packets.
-- Memory is a function from addresses to bytes.
use aideck_gap8_examples.Base.{
  ℕ, zero, suc, ◌+◌, ◌-◌, ◌%◌, min, ◌&&◌, List, [], ◌∷◌, set, take, ltb, ◌==◌, ◌!=◌, if◌then◌else◌,
  Outcome, ok, exit, ◌>>=◌,
}
use aideck_gap8_examples.Base.{bytes}
use aideck_gap8_examples.Cpx
use aideck_gap8_examples.Streamer.Packet.{
  Fault, out_of_fuel, from_cpx, buffer_begin, buffer_data, type_image, packet_head_length,
  begin_head,
}

-- The request that all packets of a streamer use, and the bytes of its payload buffer, which
-- hold a `streamer_packet_t`.
pub record Sender : Type 0 where
  pub packet : List ℕ
  pub cpx_req : Cpx.SendReq

-- `streamer_packet_init`
unfoldable pub packet_init : Sender → ℕ → Outcome Fault Sender
packet_init s command = do
  req₁ ← from_cpx (Cpx.set_tail s.cpx_req 0 0)
  length ← packet_head_length command
  req₂ ← from_cpx (Cpx.set_head_length req₁ length)
  ok (record { packet = set s.packet 0 command; cpx_req = req₂ })

-- The first packet of a frame, and every other.
unfoldable pub first_packet : ℕ → ℕ → Sender → Outcome Fault Sender
first_packet frame_size checksum s = do
  s' ← packet_init s buffer_begin
  ok (record s' { packet = begin_head type_image frame_size checksum })

-- The length of the next segment: as much as fits the packet, rounded up at the end of the frame.
unfoldable pub segment_length : ℕ → ℕ → ℕ
segment_length remaining_length max_tail =
    let packet_length = min remaining_length max_tail in
    if (packet_length == remaining_length) && ((packet_length % 4) != 0)
    then packet_length + (4 - packet_length % 4)
    else packet_length

-- What a packet carries.
pub record Sent : Type 0 where
  pub head : List ℕ
  pub tail : List ℕ

module _ (memory : ℕ → ℕ) (frame_size checksum : ℕ) where
  -- One round of the loop: the packet that is sent, and its length.
  unfoldable pub send_packet : Sender → ℕ → ℕ → Outcome Fault (Sender × Sent × ℕ)
  send_packet s packet_payload remaining_length = do
    s₁ ←
        (if remaining_length == frame_size
          then first_packet frame_size checksum s
          else packet_init s buffer_data)
    let packet_length = segment_length remaining_length (Cpx.max_tail_length s₁.cpx_req)
    req ← from_cpx (Cpx.set_tail s₁.cpx_req packet_payload packet_length)
    ok (
      record s₁ { cpx_req = req },
      record {
        head = take req.req.head_length s₁.packet;
        tail = bytes memory packet_payload packet_length;
      },
      packet_length,
    )

  -- `while (remaining_length > 0)`. The last segment may be longer than what remains; the signed
  -- `remaining_length` is then negative where this one is 0, and the loop ends either way.
  unfoldable pub send_loop : ℕ → Sender → ℕ → ℕ → Outcome Fault (Sender × List Sent)
  send_loop zero s packet_payload remaining_length =
      if ltb 0 remaining_length then exit out_of_fuel else ok (s, [])
  send_loop (suc fuel) s packet_payload remaining_length =
      let round = (do
        (s', sent, packet_length) ← send_packet s packet_payload remaining_length
        (s'', more) ←
            send_loop fuel s' (packet_payload + packet_length) (remaining_length - packet_length)
        ok (s'', sent ∷ more)) in
      if ltb 0 remaining_length then round else ok (s, [])
