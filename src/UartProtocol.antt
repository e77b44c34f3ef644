-- ===== src/UartProtocol.antt =====
-- nanocockpit/lib/uart_protocol.c: messages in a stream of bytes, found by their headers and
-- checked by their checksums. The UART delivers the bytes of the stream in order; a read of more
-- bytes than there are to come does not return.
pub mod Scan
pub mod Round
mod Tests
use aideck_gap8_examples.Base.{
  ℕ, zero, suc, ◌+◌, ◌-◌, ◌%◌, ◌≡◌, Bool, true, false, ◌&&◌, List, [], ◌∷◌, ◌++◌, length, take,
  drop, ltb, ◌==◌, ◌!=◌, if◌then◌else◌, Outcome, ok, exit, ◌>>=◌,
}
use aideck_gap8_examples.Crc32.{Statics, calculate_buffer}
use aideck_gap8_examples.Streamer.Packet.{read32}

abbrev pub buffer_length : ℕ
buffer_length = 128

abbrev pub header_length : ℕ
header_length = 4

abbrev pub checksum_length : ℕ
checksum_length = 4

abbrev pub read_size : ℕ
read_size = 4

-- `sizeof(uart_msg_t)`, where `checksum` and `recv_timestamp` stand behind the union.
abbrev pub message_size : ℕ
message_size = 80

-- "!STA"
abbrev pub state_header : List ℕ
state_header = 0x21 ∷ 0x53 ∷ 0x54 ∷ 0x41 ∷ []

-- "!RNG"
abbrev pub rng_header : List ℕ
rng_header = 0x21 ∷ 0x52 ∷ 0x4E ∷ 0x47 ∷ []

-- "!TOF"
abbrev pub tof_header : List ℕ
tof_header = 0x21 ∷ 0x54 ∷ 0x4F ∷ 0x46 ∷ []

-- `memcmp(xs, ys, n) == 0`, for lists of the same length
unfoldable pub same_bytes : List ℕ → List ℕ → Bool
same_bytes [] [] = true
same_bytes [] (y ∷ ys) = false
same_bytes (x ∷ xs) [] = false
same_bytes (x ∷ xs) (y ∷ ys) = (x == y) && same_bytes xs ys

-- `message_length`: the size of the struct for a header, and 0 for other bytes.
unfoldable pub message_length : List ℕ → ℕ
message_length header =
    if same_bytes header state_header
    then 32
    else if same_bytes header rng_header
    then 4
    else if same_bytes header tof_header
    then 68
    else 0

-- The bytes of the buffer that have been read, `discarded_length`, and the bytes to come.
pub record Reader : Type 0 where
  pub available : List ℕ
  pub discarded : ℕ
  pub coming : List ℕ

-- Why a round may not come to its end: a copy beyond the buffer, or a read that waits for more.
pub data Stop : Type 0 where
  overrun starved out_of_fuel : Stop

-- The call of `uart_read_async`, with the wait for it.
unfoldable pub read : ℕ → Reader → Outcome Stop Reader
read n r =
    if ltb buffer_length (length r.available + n)
    then exit overrun
    else if ltb (length r.coming) n
    then exit starved
    else ok (record r { available = r.available ++ take n r.coming; coming = drop n r.coming })

-- A byte is discarded, and more are read when a header needs them.
unfoldable pub discard : Reader → Outcome Stop Reader
unfolding read
discard r =
    let r' = record r { discarded = r.discarded + 1 } in
    if ltb (length r.available) (r'.discarded + header_length) then read read_size r' else ok r'

-- `message->header`
unfoldable pub header_at : Reader → List ℕ
header_at r = take header_length (drop r.discarded r.available)

-- The inner loop: `message_length` and where it leaves the reader.
unfoldable pub scan : ℕ → Reader → Outcome Stop (ℕ × Reader)
unfolding discard header_at
scan zero r = exit out_of_fuel
scan (suc fuel) r =
    let n = message_length (header_at r) in
    let rest = discard r >>= λ r'. scan fuel r' in
    if n != 0
    then ok (n, r)
    else if ltb buffer_length (r.discarded + 1 + read_size)
    then ok (0, record r { discarded = r.discarded + 1 })
    else rest

-- What comes of a round of the outer loop.
pub data Result : Type 0 where
  given_up too_long bad_checksum : Result
  message : List ℕ → Result

-- The read of the rest of a message.
unfoldable pub read_rest : ℕ → Reader → Outcome Stop Reader
unfolding read
read_rest total_length r =
    if ltb (length r.available) total_length
    then read (total_length - length r.available) r
    else ok r

-- After the header has been found.
unfoldable pub receive : Statics → ℕ → Reader → Outcome Stop (Statics × Result × List ℕ)
unfolding read_rest
receive s n r =
    let total_length = r.discarded + header_length + n + checksum_length in
    if ltb buffer_length total_length then ok (s, too_long, r.coming) else (do
      r' ← read_rest total_length r
      let content = take (header_length + n) (drop r'.discarded r'.available)
      let checksum = read32 (drop (r'.discarded + header_length + n) r'.available) 0
      let (s', own) = calculate_buffer s content
      if ltb buffer_length (r'.discarded + message_size)
          then exit overrun
          else ok (s', if own == checksum then message content else bad_checksum, r'.coming))

-- A round of the outer loop of `uart_protocol_task`, with the bytes to come.
unfoldable pub round : ℕ → Statics → List ℕ → Outcome Stop (Statics × Result × List ℕ)
unfolding read scan receive
round fuel s coming = do
  r ← read read_size (record { available = []; discarded = 0; coming = coming })
  (n, r') ← scan fuel r
  if n == 0 then ok (s, given_up, r'.coming) else receive s n r'

-- UART_INFERENCE_STAMPED_MSG_HEADER
abbrev pub inference_stamped_header : List ℕ
inference_stamped_header = 0x90 ∷ 0x19 ∷ 0x08 ∷ 0x32 ∷ []

-- `uart_protocol_send_inference_async`: the bytes of the message that are written, with those of
-- the struct.
unfoldable pub send_inference : List ℕ → List ℕ
send_inference stamped = take (header_length + 20) (inference_stamped_header ++ stamped)
