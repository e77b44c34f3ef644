-- ===== src/Streamer/Receive.antt =====
-- The receiving half of nanocockpit/lib/streamer.c: a client lends a buffer, and the packets that
-- come in fill it. A buffer is named by its address, and 0 is NULL.
use aideck_gap8_examples.Base.{
  ℕ, ◌+◌, ◌-◌, ◌%◌, ◌^◌, Bool, true, false, ◌&&◌, List, ◌∷◌, take, drop, ltb, ◌==◌, ◌!=◌,
  if◌then◌else◌, Outcome, ok, exit, ◌>>=◌, ℕ_discrete,
}
use mathlib.Core.Logic.{ite}
use aideck_gap8_examples.Base.{write}
use aideck_gap8_examples.Spi.{null}
use aideck_gap8_examples.Crc32.{Statics, calculate_buffer}
use aideck_gap8_examples.Streamer.Packet.{
  Fault, buffer_in_use, already_waiting, not_waiting_for_it, no_callback_task, buffer_begin,
  buffer_data, packet_head_length, command_of, begin_type, begin_size, begin_checksum,
}

-- `streamer_buffer_t`; `done_task` is an address, the bytes at `storage` are listed.
pub record Buffer : Type 0 where
  pub storage : List ℕ
  pub storage_capacity : ℕ
  pub type : ℕ
  pub size : ℕ
  pub received_size : ℕ
  pub checksum : ℕ
  pub done_task : ℕ

-- `streamer_buffer_init`; it leaves `type` and `checksum` as they are.
unfoldable pub buffer_init : Buffer → List ℕ → ℕ → Buffer
buffer_init b storage storage_capacity = record b {
  storage = storage;
  storage_capacity = storage_capacity;
  size = 0;
  received_size = 0;
  done_task = null;
}

-- `streamer_compute_checksum`
unfoldable pub compute_checksum : Statics → List ℕ → Statics × ℕ
compute_checksum s buffer =
    let (s', checksum) = calculate_buffer s buffer in
    (s', if checksum == 0 then 2 ^ 32 - 1 else checksum)

-- A subtraction of `size_t`.
abbrev pub sub_size : ℕ → ℕ → ℕ
sub_size a b = (a + 2 ^ 32 - b) % 2 ^ 32

abbrev pub reset : Buffer → Buffer
reset b = record b { size = 0; received_size = 0; checksum = 0 }

-- What a packet does to the waiting buffer; the flag says that `done_task` is pushed, the buffer
-- let go and the streamer no longer waiting.
pub record Received : Type 0 where
  pub crc : Statics
  pub buffer : Buffer
  pub done : Bool

-- The checks at the end of a buffer, under `STREAMER_RECEIVE_CHECKSUM`.
unfoldable pub complete : Bool → Statics → Buffer → Received
complete check crc b =
    let (crc', received_checksum) = compute_checksum crc (take b.size b.storage) in
    if check && (b.checksum != 0)
    then (if received_checksum != b.checksum
        then record { crc = crc'; buffer = reset b; done = false }
        else record { crc = crc'; buffer = record b { done_task = null }; done = true })
    else record { crc = crc; buffer = record b { done_task = null }; done = true }

-- `streamer_buffer_data_received`, on the waiting buffer.
unfoldable pub data_received : Bool → Statics → Buffer → List ℕ → ℕ → Outcome Fault Received
data_received check crc b packet payload_length =
    if b.size == 0 then ok (record { crc = crc; buffer = b; done = false }) else (do
      header_length ← packet_head_length (command_of packet)
      let segment_length = sub_size payload_length header_length
      let segment = take segment_length (drop header_length packet)
      let remaining_length = sub_size b.size b.received_size
      let b' = record b {
        storage = write b.storage b.received_size segment;
        received_size = b.received_size + segment_length;
      }
      ok (
          if ltb remaining_length segment_length
          then record { crc = crc; buffer = reset b; done = false }
          else if b'.received_size == b'.size
          then complete check crc b'
          else record { crc = crc; buffer = b'; done = false }))

-- `streamer_buffer_begin_received`, on the waiting buffer.
unfoldable pub begin_received : Bool → Statics → Buffer → List ℕ → ℕ → Outcome Fault Received
begin_received check crc b packet payload_length =
    let buffer_size = begin_size packet in
    if ltb b.storage_capacity buffer_size
    then ok (record { crc = crc; buffer = b; done = false })
    else data_received check crc
        (record b {
          type = begin_type packet;
          size = buffer_size;
          received_size = 0;
          checksum = begin_checksum packet;
        })
        packet payload_length

-- The packet handler, on the waiting buffer: other commands are ignored.
unfoldable pub packet_received : Bool → Statics → Buffer → List ℕ → ℕ → Outcome Fault Received
packet_received check crc b packet payload_length =
    if command_of packet == buffer_begin
    then begin_received check crc b packet payload_length
    else if command_of packet == buffer_data
    then data_received check crc b packet payload_length
    else ok (record { crc = crc; buffer = b; done = false })

-- Of `streamer_t`, the buffer that waits, with all buffers by their addresses and the statics of
-- crc32.c; `pushed` lists the tasks that were pushed, latest first.
pub record Streamer : Type 0 where
  pub buffer_rx : ℕ
  pub buffers : ℕ → Buffer
  pub crc : Statics
  pub pushed : List ℕ

abbrev pub put : (ℕ → Buffer) → ℕ → Buffer → ℕ → Buffer
put buffers at b other = ite (ℕ_discrete at other) b (buffers other)

-- `streamer_cpx_callback`: with no buffer waiting, the packet is dropped.
unfoldable pub cpx_callback : Bool → Streamer → List ℕ → ℕ → Outcome Fault Streamer
cpx_callback check s packet payload_length =
    let b = s.buffers s.buffer_rx in
    if s.buffer_rx == null then ok s else (do
      r ← packet_received check s.crc b packet payload_length
      ok (record {
        buffer_rx = if r.done then null else s.buffer_rx;
        buffers = put s.buffers s.buffer_rx r.buffer;
        crc = r.crc;
        pushed = if r.done then b.done_task ∷ s.pushed else s.pushed;
      }))

-- `streamer_receive_buffer_async`
unfoldable pub receive_buffer_async : Streamer → ℕ → ℕ → Outcome Fault Streamer
receive_buffer_async s buffer done_task =
    if done_task == null
    then exit no_callback_task
    else if (s.buffers buffer).done_task != null
    then exit buffer_in_use
    else if s.buffer_rx != null
    then exit already_waiting
    else ok (record s {
      buffer_rx = buffer;
      buffers = put s.buffers buffer (record (s.buffers buffer) { done_task = done_task });
    })

-- `streamer_cancel_receive`
unfoldable pub cancel_receive : Streamer → ℕ → Outcome Fault Streamer
cancel_receive s buffer =
    let b = s.buffers buffer in
    if (s.buffer_rx == null) && (b.done_task == null)
    then ok s
    else if s.buffer_rx != buffer
    then exit not_waiting_for_it
    else ok (record s {
      buffer_rx = null;
      buffers = put s.buffers buffer (record b { size = 0; received_size = 0; done_task = null });
      pushed = b.done_task ∷ s.pushed;
    })
