-- ===== src/UartProtocol/Round.antt =====
-- A round of `uart_protocol_task` in nanocockpit/lib/uart_protocol.c.
use Prim.Native.Nat.{bit_xor}
use aideck_gap8_examples.Base.{
  ℕ, zero, suc, ◌+◌, ◌-◌, ◌≤◌, ◌<◌, ◌≡◌, refl, sym, ap, ◌∙◌, true, false, List, [], ◌∷◌, length,
  length-take, take, drop, take-nil, ltb, ◌==◌, ==_of_ne, if◌then◌else◌, ok, exit, arith,
}
use aideck_gap8_examples.Crc32.{
  Statics, calculate_buffer, crc_by_bit, initial_remainder, final_xor_value,
}
use aideck_gap8_examples.Crc32.Laws.{IsReady, AreBytes, calculate_buffer_lem}
use aideck_gap8_examples.Streamer.Packet.{read32}
use aideck_gap8_examples.UartProtocol.{
  overrun, Result, bad_checksum, message, message_length, read_rest, receive, round,
}
use aideck_gap8_examples.UartProtocol.Scan.{
  part-of_take, after_bytes, read-after_bytes, First, scan_lem,
}

message_length-le : (header : List ℕ) → message_length header ≤ 68
unfolding message_length
message_length-le header = ground arith

drop-of_take : (xs : List ℕ) (a b : ℕ) → drop a (take (a + b) xs) ≡ take b (drop a xs)
drop-of_take xs zero b = ap (λ n. take n xs) (omega arith)
drop-of_take [] (suc a) b = rw (take-nil (suc a + b)) (sym (take-nil b))
drop-of_take (x ∷ xs) (suc a) b =
    let e : suc a + b ≡ suc (a + b) = omega arith in rw e (drop-of_take xs a b)

read_rest-after_bytes :
    (stream : List ℕ) (d k total : ℕ)
    → k ≤ total
    → total ≤ 128
    → total ≤ length stream
    → read_rest total (after_bytes stream d k) ≡ ok (after_bytes stream d total)
unfolding read_rest
read_rest-after_bytes stream d k total lower upper more =
    let e : k + (total - k) ≡ total = omega arith in
    ground (
      arith,
      e,
      length-take k stream,
      read-after_bytes stream d k (total - k) (omega arith) (omega arith),
    )

-- The first header, after the first read.
round-scan :
    (s : Statics) (stream : List ℕ) (d n : ℕ)
    → First stream d n
    → d + 4 ≤ 128
    → d + 8 ≤ length stream
    → (k : ℕ) × (round 125 s stream ≡ receive s n (after_bytes stream d k))
      × (d + 4 ≤ k)
      × (k ≤ d + 7)
unfolding round
round-scan s stream d n f fits more =
    let (k, e, a, b) =
      scan_lem 125 stream d n 0 4 f (omega arith) (omega arith) fits more (omega arith)
        (omega arith) (omega arith) in
    let p = read-after_bytes stream 0 0 4 (omega arith) (omega arith) in
    let nonzero : (n == 0) ≡ false = ==_of_ne (λ z. absurd (omega (arith, f.some_bytes))) in
    (k, rw p (rw e (rw nonzero refl)), a, b)

-- What the code makes of the bytes of a message and of its checksum.
abbrev pub verdict : List ℕ → ℕ → Result
verdict content checksum =
    if bit_xor (crc_by_bit content initial_remainder) final_xor_value == checksum
    then message content
    else bad_checksum

receive-whole :
    (s : Statics) (stream : List ℕ) (d n k : ℕ)
    → d + (8 + n) ≤ length stream
    → d + (8 + n) ≤ 128
    → k ≤ d + (8 + n)
    → let content = take (4 + n) (drop d stream) in
      let checksum = read32 (take 4 (drop (d + 4 + n) stream)) 0 in
      let (s', own) = calculate_buffer s content in
      receive s n (after_bytes stream d k) ≡ (
        if ltb 128 (d + 80)
        then exit overrun
        else ok (
          s',
          if own == checksum then message content else bad_checksum,
          drop (d + (8 + n)) stream,
        ))
unfolding receive
receive-whole s stream d n k more fits upper =
    let total : d + 4 + n + 4 ≡ d + (8 + n) = omega arith in
    let short : ltb 128 (d + (8 + n)) ≡ false = ground arith in
    let e = read_rest-after_bytes stream d k (d + (8 + n)) upper fits more in
    let p = part-of_take stream d (4 + n) (d + (8 + n)) (omega arith) in
    let q : drop (d + 4 + n) (take (d + (8 + n)) stream) ≡ take 4 (drop (d + 4 + n) stream) =
      ap (λ t. drop (d + 4 + n) (take t stream)) (sym total) ∙ drop-of_take stream (d + 4 + n) 4 in
    rw total (rw short (rw e (rw p (rw q refl))))

-- When the first header in the bytes to come has at most 48 bytes before it, and its message, of
-- `n` bytes, and the checksum behind it are among them: a round of `uart_protocol_task` reads to
-- the end of the checksum and no byte further. It hands the header and the message to the callback
-- if their CRC-32, computed bit by bit, is the checksum in the four bytes behind them, the low byte
-- first, and drops them if it is not. The static table of the checksums is ready for the next round.
pub round_lem :
    (s : Statics) (stream : List ℕ) (d n : ℕ)
    → IsReady s
    → AreBytes (take (4 + n) (drop d stream))
    → First stream d n
    → d ≤ 48
    → d + (8 + n) ≤ length stream
    → (s' : Statics) × (round 125 s stream
        ≡ ok (
          s',
          verdict (take (4 + n) (drop d stream)) (read32 (take 4 (drop (d + 4 + n) stream)) 0),
          drop (d + (8 + n)) stream,
        ))
      × IsReady s'
round_lem s stream d n ready are f near more =
    let content = take (4 + n) (drop d stream) in
    let (own, ready') = calculate_buffer_lem s content ready are in
    let upper : n ≤ 68 = omega (arith, message_length-le (take 4 (drop d stream)), f.found) in
    let (k, e, a, b) = round-scan s stream d n f (omega arith) (omega arith) in
    let some_bytes = f.some_bytes in
    let whole = receive-whole s stream d n k more (omega arith) (omega arith) in
    let inside : ltb 128 (d + 80) ≡ false = ground arith in
    ((calculate_buffer s content).0, e ∙ (whole ∙ rw inside (rw own refl)), ready')

-- When the first header has 49 or more bytes before it and its message still fits the buffer, the
-- copy of the checksum and of the time to the end of the `uart_msg_t` goes beyond the buffer.
pub round-overrun :
    (s : Statics) (stream : List ℕ) (d n : ℕ)
    → First stream d n
    → 48 < d
    → d + (8 + n) ≤ 128
    → d + (8 + n) ≤ length stream
    → round 125 s stream ≡ exit overrun
round-overrun s stream d n f far fits more =
    let (k, e, a, b) = round-scan s stream d n f (omega arith) (omega arith) in
    let some_bytes = f.some_bytes in
    let whole = receive-whole s stream d n k more fits (omega arith) in
    let outside : ltb 128 (d + 80) ≡ true = ground arith in e ∙ (whole ∙ rw outside refl)
