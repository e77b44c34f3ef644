-- ===== src/Spi.antt =====
-- The SPI packets of nanocockpit/lib/cpx/cpx_spi.h and cpx_spi.c: send and receive requests, and
-- the three transfers (header, payload head, payload tail) that carry one packet each way.
-- A pointer is its address, and 0 is NULL.
pub mod Phases
pub mod Wire
pub mod Bounds
mod Tests
use aideck_gap8_examples.Base.{
  ℕ, ◌+◌, ◌-◌, ◌*◌, ◌/◌, ◌%◌, min, max, Bool, true, false, Option, none, some, ◌==◌, ◌!=◌, ltb,
  if◌then◌else◌, Outcome, ok, exit, ◌>>=◌,
}

abbrev pub max_packet_length : ℕ
max_packet_length = 4092

-- `sizeof(cpx_spi_header_t)`: a 16-bit length and the 2 bytes of a packed `cpx_header_t`
abbrev pub header_size : ℕ
header_size = 4

abbrev pub mtu : ℕ
mtu = max_packet_length - header_size

abbrev pub null : ℕ
null = 0

-- `cpx_spi_send_req_t`: the address of the struct, whose first field is the header, the length in
-- the header, and the other fields.
pub record SendReq : Type 0 where
  pub header_at : ℕ
  pub header_length : ℕ
  pub payload_head : ℕ
  pub payload_tail : ℕ
  pub head_length : ℕ
  pub tail_length : ℕ

-- `cpx_spi_receive_req_t`, likewise; its header is written by the transfer of the header.
pub record ReceiveReq : Type 0 where
  pub header_at : ℕ
  pub header_length : ℕ
  pub buffer : ℕ
  pub buffer_size : ℕ

-- The assertions of cpx_spi.c
pub data Fault : Type 0 where
  packet_too_long : Fault
  head_not_aligned head_length_not_multiple : Fault
  tail_not_aligned tail_length_not_multiple : Fault
  buffer_not_allocated : Fault
  tx_not_aligned rx_not_aligned transfer_not_multiple nothing_to_transfer : Fault
  send_in_progress receive_in_progress wrong_buffer_size : Fault

-- `cpx_spi_send_compute_length`
unfoldable pub compute_length : SendReq → Outcome Fault SendReq
compute_length req =
    let packet_length = req.head_length + req.tail_length in
    if ltb mtu packet_length
    then exit packet_too_long
    else ok (record req { header_length = packet_length })

unfoldable pub set_head : SendReq → ℕ → ℕ → Outcome Fault SendReq
unfolding compute_length
set_head req payload_head head_length =
    if (payload_head % 4) != 0
    then exit head_not_aligned
    else if (head_length % 4) != 0
    then exit head_length_not_multiple
    else compute_length (record req { payload_head = payload_head; head_length = head_length })

unfoldable pub set_tail : SendReq → ℕ → ℕ → Outcome Fault SendReq
unfolding compute_length
set_tail req payload_tail tail_length =
    if (payload_tail % 4) != 0
    then exit tail_not_aligned
    else if (tail_length % 4) != 0
    then exit tail_length_not_multiple
    else compute_length (record req { payload_tail = payload_tail; tail_length = tail_length })

abbrev pub zeroed : ℕ → SendReq
zeroed header_at = record {
  header_at = header_at;
  header_length = 0;
  payload_head = null;
  payload_tail = null;
  head_length = 0;
  tail_length = 0;
}

-- `cpx_spi_send_req_init`; it overwrites all of `*req`.
unfoldable pub send_req_init : ℕ → ℕ → ℕ → ℕ → ℕ → Outcome Fault SendReq
unfolding set_head set_tail
send_req_init header_at payload_head head_length payload_tail tail_length = do
  req ← set_head (zeroed header_at) payload_head head_length
  set_tail req payload_tail tail_length

-- `cpx_spi_send_max_tail_length`. `head_length` is at most `mtu` in every request that is built
-- by the functions above, so the subtraction does not go below 0.
unfoldable pub max_tail_length : SendReq → ℕ
max_tail_length req =
    let tail_length = mtu - req.head_length in
    if (tail_length % 4) != 0 then tail_length - tail_length % 4 else tail_length

-- `cpx_spi_receive_req_init`; `storage` is what `pi_l2_malloc` returned.
unfoldable pub receive_req_init : ReceiveReq → ℕ → Outcome Fault ReceiveReq
receive_req_init req storage =
    if storage == null
    then exit buffer_not_allocated
    else ok (record req { buffer = storage; buffer_size = mtu })

-- Whether the chip select is kept low after a transfer (`PI_SPI_CS_KEEP`, `PI_SPI_CS_AUTO`).
pub data ChipSelect : Type 0 where
  keep auto : ChipSelect

-- One call of `pi_spi_transfer_async`, `pi_spi_send_async` or `pi_spi_receive_async`; the length
-- is in bits, and an absent direction has the address NULL.
pub record Transfer : Type 0 where
  pub tx : ℕ
  pub rx : ℕ
  pub bits : ℕ
  pub cs : ChipSelect

-- `spi_transfer_async`
unfoldable pub spi_transfer : ℕ → ℕ → ℕ → ChipSelect → Outcome Fault Transfer
spi_transfer tx_data rx_data length flags =
    if (tx_data % 4) != 0
    then exit tx_not_aligned
    else if (rx_data % 4) != 0
    then exit rx_not_aligned
    else if ((length / 8) % 4) != 0
    then exit transfer_not_multiple
    else if tx_data != null
    then ok (record { tx = tx_data; rx = rx_data; bits = length; cs = flags })
    else if rx_data != null
    then ok (record { tx = null; rx = rx_data; bits = length; cs = flags })
    else exit nothing_to_transfer

-- What a transfer function did: it started one transfer, or it had nothing to move and pushed
-- `done_task` at once.
pub data Phase : Type 0 where
  started : Transfer → Phase
  completed : Phase

-- `cpx_spi_transfer_header_async`; `empty_header` is the address of the all-zero header.
unfoldable pub transfer_header : ℕ → Option SendReq → Option ReceiveReq → Outcome Fault Phase
transfer_header empty_header send_req receive_req = do
  t ←
      spi_transfer (elim send_req [ some s ↦ s.header_at | none ↦ empty_header ])
        (elim receive_req [ some r ↦ r.header_at | none ↦ null ]) (header_size * 8) keep
  ok (started t)

abbrev pub send_length : Option SendReq → ℕ
send_length none = 0
send_length (some s) = s.header_length

abbrev pub head_length : Option SendReq → ℕ
head_length none = 0
head_length (some s) = s.head_length

abbrev pub head_buffer : Option SendReq → ℕ
head_buffer none = null
head_buffer (some s) = s.payload_head

abbrev pub tail_buffer : Option SendReq → ℕ
tail_buffer none = null
tail_buffer (some s) = s.payload_tail

-- The receive buffer from an offset on.
abbrev pub buffer_from : ℕ → Option ReceiveReq → ℕ
buffer_from offset none = null
buffer_from offset (some r) = r.buffer + offset

-- The received length is cut to what fits the buffer.
abbrev pub receive_length : Option ReceiveReq → ℕ
receive_length none = 0
receive_length (some r) = min r.header_length mtu

abbrev pub total_length : Option SendReq → Option ReceiveReq → ℕ
total_length send_req receive_req = max (send_length send_req) (receive_length receive_req)

-- `cpx_spi_transfer_payload_head_async`
unfoldable pub transfer_payload_head : ℕ → Option SendReq → Option ReceiveReq → Outcome Fault Phase
transfer_payload_head empty_header send_req receive_req =
    let send_buffer = head_buffer send_req in
    let receive_buffer = buffer_from 0 receive_req in
    let transfer_length = head_length send_req in
    let end_of_transfer = (total_length send_req receive_req == transfer_length) in
    let flags = (if end_of_transfer then auto else keep) in
    if transfer_length == 0
    then (if end_of_transfer
        then ok
            (started (record { tx = empty_header; rx = null; bits = header_size * 8; cs = flags }))
        else ok completed)
    else (do
      t ← spi_transfer send_buffer receive_buffer (transfer_length * 8) flags
      ok (started t))

-- `cpx_spi_transfer_payload_tail_async`
unfoldable pub transfer_payload_tail : Option SendReq → Option ReceiveReq → Outcome Fault Phase
transfer_payload_tail send_req receive_req =
    let send_buffer = tail_buffer send_req in
    let receive_buffer = buffer_from (head_length send_req) receive_req in
    let remaining_length = total_length send_req receive_req - head_length send_req in
    let rounded_length =
      (if (remaining_length % 4) != 0
        then remaining_length + (4 - remaining_length % 4)
        else remaining_length) in
    if remaining_length == 0
    then ok completed
    else (do t ← spi_transfer send_buffer receive_buffer (rounded_length * 8) auto; ok (started t))

-- Steps 6, 9 and 10 of `cpx_spi_task`: the three transfers of one packet. Between the first and
-- the second the received header holds `wire_length`, which is set to 0 unless the link is
-- bidirectional.
abbrev pub with_length : ℕ → Option ReceiveReq → Option ReceiveReq
with_length n none = none
with_length n (some r) = some (record r { header_length = n })

unfoldable pub exchange :
    Bool → ℕ → ℕ → Option SendReq → Option ReceiveReq → Outcome Fault (Phase × Phase × Phase)
unfolding transfer_header transfer_payload_head transfer_payload_tail spi_transfer
exchange bidirectional wire_length empty_header send_req receive_req = do
  header ← transfer_header empty_header send_req receive_req
  let received = with_length (if bidirectional then wire_length else 0) receive_req
  head ← transfer_payload_head empty_header send_req received
  tail ← transfer_payload_tail send_req received
  ok (header, head, tail)
